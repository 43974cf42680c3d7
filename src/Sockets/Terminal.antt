-- ===== src/Sockets/Terminal.antt =====
-- websocket/terminalHandler.go: a shell in a container, over a connection.
--
-- The loop of the handler runs on what happens in turn: a message of the client, or the context that
-- is cancelled; at the end the connection cannot be read. The goroutine that copies the shell's
-- output the other way is `copy_output`. `json.Unmarshal` of a message is a parameter.
pub mod Input
use host_container.World.{
  Word, Outside, World, Action, Result, ok, err, Error, exec_resize, exec_write, call, ignore,
  ◌>>=◌, ◌>>◌, pool,
}
use host_container.Text.{text_eq}
use host_container.Http.{is_given}
use host_container.Containers.Exec.{exec_terminal}
use host_container.Sockets.Upgrade.{Handshake, Outcome, failed, ended, with_connection}
use host_container.Prelude.{
  String, Bool, Option, ℕ, some, List, str_eq, ◌&&◌, if◌then◌else◌, none, ltb, ◌∷◌, [], ◌-◌, ◌==◌,
}

pub record ResizeMsg : Type 0 where
  pub kind : String
  pub cols : ℕ
  pub rows : ℕ

pub data Wake : Type 0 where
  message : Word → Wake
  cancelled : Wake

abbrev pub is_resize : ResizeMsg → Bool
is_resize m = str_eq m.kind "resize" && ltb 0 m.cols && ltb 0 m.rows

-- The size that a message asks for, if it is one that does.
unfoldable pub size_of : Option ResizeMsg → Option (ℕ × ℕ)
size_of none = none
size_of (some m) = if is_resize m then some (m.cols, m.rows) else none

module _ (out : Outside) (unmarshal : Word → Option ResizeMsg) where
  -- `ResizeTerminal` of service/hostContainerService.go
  unfoldable pub resize_terminal : String → ℕ → ℕ → Action (Unit {0})
  resize_terminal exec_id cols rows = call out (exec_resize exec_id cols rows)

  -- What is done with a message. The error of a resize is dropped.
  unfoldable pub handle_input : String → Word → Action (Unit {0})
  unfolding resize_terminal
  handle_input exec_id data_read w = elim (size_of (unmarshal data_read)) [
    | none ↦ call out (exec_write exec_id data_read) w
    | some (cols, rows) ↦ ignore (resize_terminal exec_id cols rows) w
  ]

  unfoldable pub input_loop : String → List Wake → World → World
  input_loop exec_id [] w = w
  input_loop exec_id (cancelled ∷ ws) w = w
  input_loop exec_id (message m ∷ ws) w =
      let (r, w') = handle_input exec_id m w in
      let rest = input_loop exec_id ws w' in elim r [ ok _ ↦ rest | err _ ↦ w' ]

  -- What the handler's connection is told when the shell cannot be started goes with the error.
  unfoldable pub terminal_handler :
      Word → String → Handshake → List Wake → World → Outcome (Unit {0}) × World
  terminal_handler raw project_id h ws =
      with_connection raw (is_given project_id) "project_id requis" h λ w.
        let (r, w') = exec_terminal out project_id w in
        elim r [ ok exec_id ↦ (ended tt, input_loop exec_id ws w') | err e ↦ (failed e, w') ]

-- The goroutine that copies the shell's output: each read gives some bytes and whether it failed, and
-- the client can be sent as many messages as there is room for.
unfoldable pub copy_output : ℕ → List (Word × Bool) → List Word
copy_output room [] = []
copy_output room ((bytes, fails) ∷ reads) =
    let later = copy_output (room - 1) reads in
    let silent = copy_output room reads in
    if text_eq bytes []
    then if fails then [] else silent
    else if room == 0
    then []
    else if fails
    then bytes ∷ []
    else bytes ∷ later
