-- ===== src/Attach/Examples.antt =====
-- Frames and reads of an attached container on concrete input.
use zerun.Prelude.{
  ℕ, Bool, true, none, some, List, [], ◌∷◌, ◌++◌, ok, err, ◌≡◌, refl, arith, codes, replicate,
}
use zerun.Prelude.Int.{pos, negsuc}
use zerun.Nftables.{be32}
use zerun.Attach.{
  unexpected_eof, read_attach_frame, frame_of, exit_bytes, Client, broadcast, close_all,
  attach_output, attach_from, write_failed,
}
use zerun.Attach.Frames.{stream_of, attach_output-stream_of, IsI32}
use zerun.Attach.Collector.{Collected, collect, collect-lines, drain, all_stored}
use zerun.Logs.Select.Lines.{lines, concat}

cut_short : read_attach_frame (0 ∷ 0 ∷ 0 ∷ 0 ∷ 1 ∷ []) ≡ err unexpected_eof
unfolding read_attach_frame
cut_short = refl

clean_end : attach_output 0 [] ≡ ok ([], none)
unfolding attach_output attach_from read_attach_frame
clean_end = refl

-- The standard output is closed.
closed_output : attach_output 0 (frame_of (codes "a")) ≡ err write_failed
unfolding attach_output attach_from read_attach_frame frame_of be32
closed_output = refl

abbrev ten : List ℕ
ten = replicate 10 7

-- The status of a process that a signal killed, and a negative one
attach_output-stream_of_example :
    attach_output 2 (stream_of (codes "a" ∷ codes "bc" ∷ []) (negsuc 0))
    ≡ ok (codes "abc", some (negsuc 0))
unfolding IsI32
attach_output-stream_of_example =
    attach_output-stream_of 2 (codes "a" ∷ codes "bc" ∷ []) (negsuc 0) (omega arith)
      ((omega arith, omega arith), ((omega arith, omega arith), tt)) (omega arith)

abbrev two_clients : List Client
two_clients = record { received = []; patience = 0 } ∷ record { received = []; patience = 5 } ∷ []

-- A client that does not take a frame is dropped, and the others go on.
dropped :
    close_all (pos 3) (broadcast (b'x' ∷ []) two_clients)
    ≡ (0 ∷ 0 ∷ 0 ∷ 1 ∷ b'x' ∷ 0 ∷ 0 ∷ 0 ∷ 0 ∷ 0 ∷ 0 ∷ 0 ∷ 3 ∷ []) ∷ []
unfolding close_all broadcast frame_of exit_bytes be32
dropped = refl

abbrev keeping : List ℕ → List (List ℕ) → Bool × List (List ℕ)
keeping line log = (true, log ++ line ∷ [])

abbrev nothing_yet : Collected keeping
nothing_yet = record { log = []; sent = [] }

abbrev reads : List (List ℕ)
reads = (1 ∷ 10 ∷ 2 ∷ []) ∷ (3 ∷ 10 ∷ 10 ∷ 4 ∷ []) ∷ []

collected :
    (collect keeping reads [] nothing_yet).log
    ≡ (1 ∷ 10 ∷ []) ∷ (2 ∷ 3 ∷ 10 ∷ []) ∷ (10 ∷ []) ∷ (4 ∷ []) ∷ []
unfolding collect drain
collected = refl

collect-lines_example :
    collect keeping reads [] nothing_yet ≡ all_stored keeping (lines (concat reads)) nothing_yet
collect-lines_example =
    collect-lines keeping (λ line log. refl) reads nothing_yet (refl, (refl, tt))
