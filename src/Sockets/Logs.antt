-- ===== src/Sockets/Logs.antt =====
-- websocket/logsHandler.go: the lines of a container's output, numbered, on one connection.
--
-- What the writers share, the connection and the counter, is the state of the loop. `StdCopy` hands a
-- writer one frame after the other and stops at the first error. A number is not yet a text.
pub mod Numbered
use host_container.Prelude.{ℕ, ◌+◌, Bool, true, false, List, [], ◌∷◌, ◌++◌, String, if◌then◌else◌}
use host_container.World.{Word, Outside, World, ok, err}
use host_container.Text.{text_eq}
use host_container.Text.Lines.{split_on, trim_right_of}
use host_container.Http.{is_given}
use host_container.Containers.Exec.{stream_logs}
use host_container.Sockets.Upgrade.{Handshake, Outcome, failed, ended, with_connection}

pub data Stream : Type 0 where
  stdout stderr : Stream

pub record LogEntry : Type 0 where
  pub id : ℕ
  pub timestamp : ℕ
  pub stream : Stream
  pub message : Word

-- What was sent, oldest first, and the counter.
pub record Connection : Type 0 where
  pub sent : List LogEntry
  pub seq : ℕ

abbrev pub newline : ℕ
newline = 10

module _ (now : ℕ → ℕ) (accepts : List LogEntry → Bool) where
  -- The loop of `Write`: whether it came to the end, and what it left. `accepts` tells whether the
  -- next entry can be sent, `now` the time at which a number was given.
  unfoldable pub write_lines : Stream → List Word → Connection → Bool × Connection
  write_lines s [] c = (true, c)
  write_lines s (line ∷ lines) c =
      let seq = c.seq + 1 in
      let entry : LogEntry = record { id = seq; timestamp = now seq; stream = s; message = line } in
      elim (text_eq line []) [
        | true ↦ write_lines s lines c
        | false ↦
            if accepts c.sent
            then write_lines s lines (record { sent = c.sent ++ entry ∷ []; seq = seq })
            else (false, record c { seq = seq })
      ]

  unfoldable pub write : Stream → Word → Connection → Bool × Connection
  write s p c = write_lines s (split_on newline (trim_right_of newline p)) c

  -- The calls of `Write`, one for each frame: `StdCopy` makes them in turn, up to the first error.
  unfoldable pub write_frames : List (Stream × Word) → Connection → Connection
  write_frames [] c = c
  write_frames ((s, p) ∷ frames) c =
      let (is_whole, c') = write s p c in if is_whole then write_frames frames c' else c'

  unfoldable pub logs_handler :
      Outside
      → Word
      → String
      → Handshake
      → List (Stream × Word)
      → World
      → Outcome (List LogEntry) × World
  logs_handler out raw project_id h frames =
      with_connection raw (is_given project_id) "project_id requis" h λ w.
        let (r, w') = stream_logs out project_id w in
        (
          elim r [
            | ok _ ↦ ended (write_frames frames (record { sent = []; seq = 0 })).sent
            | err e ↦ failed e
          ],
          w',
        )
