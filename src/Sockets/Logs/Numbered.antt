-- ===== src/Sockets/Logs/Numbered.antt =====
-- The lines of the frames are sent in their order, numbered from 1, as far as the connection takes them.
use host_container.Prelude.{
  ℕ, suc, zero, ◌+◌, ◌≡◌, refl, ap, sym, ◌∙◌, Bool, true, false, List, [], ◌∷◌, ◌++◌, length,
  length-append, take, arith, ◌⊎◌, inl, inr, All, ltb,
}
use mathlib.Core.List.{append-nil, append_assoc}
use native.Mathlib.Numerals.{add-one}
use host_container.World.{Word}
use host_container.Text.{text_eq}
use host_container.Text.Lines.{
  split_on, trim_right_of, filled, filled-split_trimmed, is_free_of, split_on-append,
}
use host_container.Sockets.Logs.{
  Stream, LogEntry, Connection, newline, write_lines, write, write_frames,
}

-- The lines that are not empty, of each frame in turn.
abbrev pub frame_lines : Stream → List Word → List (Stream × Word)
frame_lines s [] = []
frame_lines s (l ∷ ls) = (s, l) ∷ frame_lines s ls

abbrev pub lines_of : List (Stream × Word) → List (Stream × Word)
lines_of [] = []
lines_of ((s, p) ∷ frames) = frame_lines s (filled (split_on newline p)) ++ lines_of frames

abbrev pub numbered : (ℕ → ℕ) → ℕ → List (Stream × Word) → List LogEntry
numbered now n [] = []
numbered now n ((s, l) ∷ ls) =
    record { id = suc n; timestamp = now (suc n); stream = s; message = l }
    ∷ numbered now (suc n) ls

-- A connection that takes a number of entries and no more.
abbrev pub takes : ℕ → List LogEntry → Bool
takes room sent = ltb (length sent) room

take-nil : (k : ℕ) → take {A = LogEntry} k [] ≡ []
take-nil zero = refl
take-nil (suc k) = refl

module _ (now : ℕ → ℕ) (room : ℕ) where
  -- As many entries were sent as were numbered, and `k` more have room.
  record Fits (c : Connection) (k : ℕ) : Type 0 where
    counted : length c.sent ≡ c.seq
    left : c.seq + k ≡ room

  -- What is sent in the end, where these lines are still to come.
  abbrev target : Connection → ℕ → List (Stream × Word) → List LogEntry
  target c k ls = c.sent ++ take k (numbered now c.seq ls)

  abbrev next : Stream → Word → Connection → Connection
  next s l c = record {
    sent =
        c.sent
        ++ record { id = c.seq + 1; timestamp = now (c.seq + 1); stream = s; message = l } ∷ [];
    seq = c.seq + 1;
  }

  next-Fits :
      (s : Stream) (l : Word) (c : Connection) (k : ℕ) → Fits c (suc k) → Fits (next s l c) k
  next-Fits s l c k f = record {
    counted =
        let e = f.counted in
        omega (
          arith,
          length-append {0} c.sent (
              record { id = c.seq + 1; timestamp = now (c.seq + 1); stream = s; message = l } ∷ []),
        );
    left = let e = f.left in omega arith;
  }

  next-target :
      (s : Stream) (l : Word) (c : Connection) (k : ℕ) (ls : List (Stream × Word))
      → target (next s l c) k ls ≡ target c (suc k) ((s, l) ∷ ls)
  next-target s l c k ls = simp (add-one, append_assoc)

  write_lines_cases :
      (s : Stream) (ls : List Word) (c : Connection) (k : ℕ) (rest : List (Stream × Word))
      → Fits c k
      → ((c' : Connection) × (k' : ℕ) × (write_lines now (takes room) s ls c ≡ (true, c'))
          × Fits c' k'
          × (target c' k' rest ≡ target c k (frame_lines s (filled ls) ++ rest)))
        ⊎ ((c' : Connection) × (write_lines now (takes room) s ls c ≡ (false, c'))
            × (c'.sent ≡ target c k (frame_lines s (filled ls) ++ rest)))
  unfolding write_lines filled
  write_lines_cases s [] c k rest f = inl (c, k, refl, f, refl)
  write_lines_cases s ([] ∷ ls) c k rest f = write_lines_cases s ls c k rest f
  write_lines_cases s ((x ∷ l) ∷ ls) c zero rest f =
      let full : takes room c.sent ≡ false = let e = f.counted in let d = f.left in ground arith in
      inr (record c { seq = c.seq + 1 }, rw full refl, sym (append-nil c.sent))
  write_lines_cases s ((x ∷ l) ∷ ls) c (suc k) rest f =
      let free : takes room c.sent ≡ true = let e = f.counted in let d = f.left in ground arith in
      let same = next-target s (x ∷ l) c k (frame_lines s (filled ls) ++ rest) in
      elim (write_lines_cases s ls (next s (x ∷ l) c) k rest (next-Fits s (x ∷ l) c k f)) [
        | inl (c', k', e, f', t) ↦ inl (c', k', rw free e, f', t ∙ same)
        | inr (c', e, t) ↦ inr (c', rw free e, t ∙ same)
      ]

  write_frames-target :
      (frames : List (Stream × Word)) (c : Connection) (k : ℕ)
      → Fits c k
      → (write_frames now (takes room) frames c).sent ≡ target c k (lines_of frames)
  unfolding write_frames write
  write_frames-target [] c k f = rw (take-nil k) (sym (append-nil c.sent))
  write_frames-target ((s, p) ∷ frames) c k f =
      let same : filled (split_on newline (trim_right_of newline p)) ≡ filled (split_on newline p) =
        filled-split_trimmed newline p in
      elim (write_lines_cases s (split_on newline (trim_right_of newline p)) c k (lines_of frames)
        f) [
          | inl (c', k', e, f', t) ↦ rw e (
              write_frames-target frames c' k' f'
              ∙ t
              ∙ ap (λ (ls : List Word). target c k (frame_lines s ls ++ lines_of frames)) same)
          | inr (c', e, t) ↦
              rw e
                (t ∙ ap (λ (ls : List Word). target c k (frame_lines s ls ++ lines_of frames)) same)
        ]

-- A line as a process writes it, without the newline that ends it.
pub record IsLine (l : Word) : Type 0 where
  pub not_empty : text_eq l [] ≡ false
  pub is_one : is_free_of newline l ≡ true

-- What a process has written when it has written these lines.
pub unlines : List Word → Word
unlines [] = []
unlines (l ∷ ls) = l ++ newline ∷ unlines ls

abbrev pub frames_of : List (Stream × List Word) → List (Stream × Word)
frames_of [] = []
frames_of ((s, ls) ∷ outputs) = (s, unlines ls) ∷ frames_of outputs

abbrev pub all_lines : List (Stream × List Word) → List (Stream × Word)
all_lines [] = []
all_lines ((s, ls) ∷ outputs) = frame_lines s ls ++ all_lines outputs

abbrev pub IsOutput : Stream × List Word → Type 0
IsOutput (s, ls) = All IsLine ls

split-unlines : (ls : List Word) → All IsLine ls → filled (split_on newline (unlines ls)) ≡ ls
unfolding unlines filled split_on
split-unlines [] a = refl
split-unlines (l ∷ ls) a =
    rw (split_on-append newline l (unlines ls) a.0.is_one)
      (ground (arith, a.0.not_empty, split-unlines ls a.1))

lines_of-frames_of :
    (outputs : List (Stream × List Word))
    → All IsOutput outputs
    → lines_of (frames_of outputs) ≡ all_lines outputs
lines_of-frames_of [] a = refl
lines_of-frames_of ((s, ls) ∷ outputs) a =
    rw (split-unlines ls a.0, lines_of-frames_of outputs a.1) refl

-- Whatever the frames hold, a new connection that takes `room` entries is sent the first `room` of
-- their lines, numbered from 1 without a gap, in the order of the frames and each with its stream.
-- The lines are the pieces between the newlines of one frame, as they were written, and those
-- that are empty are left out: what straddles two frames comes as two lines.
pub write_frames-lines :
    (now : ℕ → ℕ) (room : ℕ) (frames : List (Stream × Word))
    → (write_frames now (takes room) frames (record { sent = []; seq = 0 })).sent
      ≡ take room (numbered now 0 (lines_of frames))
write_frames-lines now room frames =
    write_frames-target now room frames (record { sent = []; seq = 0 }) room
      (record { counted = refl; left = omega arith })

-- So where each frame holds whole lines, none of them empty, these lines are sent.
write_frames-numbered :
    (now : ℕ → ℕ) (room : ℕ) (outputs : List (Stream × List Word))
    → All IsOutput outputs
    → (write_frames now (takes room) (frames_of outputs) (record { sent = []; seq = 0 })).sent
      ≡ take room (numbered now 0 (all_lines outputs))
write_frames-numbered now room outputs a =
    write_frames-lines now room (frames_of outputs)
    ∙ ap (λ (ls : List (Stream × Word)). take room (numbered now 0 ls))
        (lines_of-frames_of outputs a)
