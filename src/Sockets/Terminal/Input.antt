-- ===== src/Sockets/Terminal/Input.antt =====
-- What reaches the shell of the client's messages.
use host_container.World.Calls.{log_all}
use host_container.World.{Word, Outside, World, Event, exec_resize, exec_write, logged, refused}
use host_container.Sockets.Terminal.{
  ResizeMsg, Wake, message, cancelled, size_of, handle_input, input_loop, ok, Error, err,
}
use host_container.Prelude.{
  Bool, str_eq, ◌&&◌, not, ◌==◌, if◌then◌else◌, Option, List, String, ◌∷◌, [], ◌≡◌, ◌⊎◌, none, some,
  true, Option-cases, ◌++◌, inl, map, Bool-cases, ap, inr, refl, arith, ◌∙◌,
}

-- The messages before the context is cancelled.
abbrev pub messages : List Wake → List Word
messages [] = []
messages (cancelled ∷ ws) = []
messages (message m ∷ ws) = m ∷ messages ws

-- A resize that asks for a size.
abbrev pub resizes : ResizeMsg → Bool
resizes r = str_eq r.kind "resize" && not (r.cols == 0) && not (r.rows == 0)

-- The call that a message comes to: a resize, or input of the shell.
abbrev pub event_of : (Word → Option ResizeMsg) → String → Word → Event
event_of unmarshal exec_id m = elim (unmarshal m) [
  | none ↦ exec_write exec_id m
  | some r ↦ if resizes r then exec_resize exec_id r.cols r.rows else exec_write exec_id m
]

module _ (out : Outside) (unmarshal : Word → Option ResizeMsg) (exec_id : String) where
  abbrev after : Word → World → World
  after m w = logged (event_of unmarshal exec_id m) w

  written :
      (m : Word) (w : World)
      → event_of unmarshal exec_id m ≡ exec_write exec_id m
      → size_of (unmarshal m) ≡ none
      → (handle_input out unmarshal exec_id m w ≡ (ok tt, after m w))
        ⊎ ((e : Error) × (handle_input out unmarshal exec_id m w ≡ (err e, after m w))
            × (event_of unmarshal exec_id m ≡ exec_write exec_id m)
            × (out.fails (exec_write exec_id m ∷ w.trace) ≡ true))
  unfolding handle_input
  written m w e none_asked = elim (Bool-cases (out.fails (exec_write exec_id m ∷ w.trace))) [
    | inl lost ↦ inr (refused (exec_write exec_id m), ground arith, e, lost)
    | inr sent ↦ inl (ground arith)
  ]

  handle_input_cases :
      (m : Word) (w : World)
      → (handle_input out unmarshal exec_id m w ≡ (ok tt, after m w))
        ⊎ ((e : Error) × (handle_input out unmarshal exec_id m w ≡ (err e, after m w))
            × (event_of unmarshal exec_id m ≡ exec_write exec_id m)
            × (out.fails (exec_write exec_id m ∷ w.trace) ≡ true))
  unfolding handle_input size_of
  handle_input_cases m w = elim (Option-cases (unmarshal m)) [
    | inl e ↦ written m w (ground arith) (ground arith)
    | inr (r, e) ↦ elim (Bool-cases (resizes r)) [
      | inl asked ↦ inl (ground arith)
      | inr other ↦ written m w (ground arith) (ground arith)
    ]
  ]

  handled_step :
      (m : Word) (ws : List Wake) (w w1 : World)
      → handle_input out unmarshal exec_id m w ≡ (ok tt, w1)
      → input_loop out unmarshal exec_id (message m ∷ ws) w ≡ input_loop out unmarshal exec_id ws w1
  unfolding input_loop
  handled_step m ws w w1 e = ground arith

  refused_step :
      (m : Word) (ws : List Wake) (w w1 : World) (x : Error)
      → handle_input out unmarshal exec_id m w ≡ (err x, w1)
      → input_loop out unmarshal exec_id (message m ∷ ws) w ≡ w1
  unfolding input_loop
  refused_step m ws w w1 x e = ground arith

  -- Each message of the client, up to the end or the cancellation, comes to one call, in its order: a
  -- well-formed resize to a resize of the session, and any other to input of the shell, byte for
  -- byte. Only a refused input, the last call then, ends that early.
  pub input_loop-passes :
      (ws : List Wake) (w : World)
      → (handled rest : List Word) × (messages ws ≡ handled ++ rest)
        × (input_loop out unmarshal exec_id ws w
            ≡ log_all (map (event_of unmarshal exec_id) handled) w)
        × ((rest ≡ [])
            ⊎ ((m : Word) × (t : List Event) × ((input_loop out unmarshal exec_id ws w).trace
                  ≡ exec_write exec_id m ∷ t)
                × (out.fails (exec_write exec_id m ∷ t) ≡ true)))
  unfolding input_loop
  input_loop-passes [] w = ([], [], refl, refl, inl refl)
  input_loop-passes (cancelled ∷ ws) w = ([], [], refl, refl, inl refl)
  input_loop-passes (message m ∷ ws) w =
      let (handled, rest, split, left, why) = input_loop-passes ws (after m w) in
      elim (handle_input_cases m w) [
        | inl e ↦
            let step = handled_step m ws w (after m w) e in
            (m ∷ handled, rest, ap (λ (ms : List Word). m ∷ ms) split, step ∙ left, rw step why)
        | inr (x, e, input, lost) ↦
            let step = refused_step m ws w (after m w) x e in
            let last = ap (λ (v : World). v.trace) step ∙ ap (λ (c : Event). c ∷ w.trace) input in
            (m ∷ [], messages ws, refl, step, inr (m, w.trace, last, lost))
      ]
