-- ===== src/Attach.antt =====
-- The attach socket of src/lifecycle.rs: frames, their readers, and the collector that sends them.
-- A stream is the bytes up to its end; a read that is interrupted is repeated, and leaves no trace.
use zerun.Prelude.{
  ℕ, zero, suc, ◌+◌, ◌-◌, ◌*◌, ◌/◌, ◌%◌, ◌^◌, Bool, true, false, ◌&&◌, not, Option, none, some,
  List, [], ◌∷◌, ◌++◌, Result, ok, err, ◌>>=◌, ◌==◌, ltb, if◌then◌else◌, length, take, drop, retain,
  map,
}
use zerun.Prelude.Int.{ℤ, pos, negsuc}
use zerun.Nftables.{be32}
pub mod Frames
pub mod Collector
mod Examples

pub data AttachFrame : Type 0 where
  data_frame : List ℕ → AttachFrame
  exit_frame : ℤ → AttachFrame
  eof : AttachFrame

pub data ReadError : Type 0 where
  unexpected_eof frame_too_large : ReadError

-- `read_exact`: that many bytes, and what is behind them
abbrev pub read_exact : ℕ → List ℕ → Result ReadError (List ℕ × List ℕ)
read_exact n stream =
    if ltb (length stream) n then err unexpected_eof else ok (take n stream, drop n stream)

-- `u32::from_be_bytes` and `i32::from_be_bytes`
abbrev pub be_u32 : ℕ → List ℕ → ℕ
be_u32 acc [] = acc
be_u32 acc (b ∷ s) = be_u32 (acc * 256 + b) s

abbrev pub as_i32 : ℕ → ℤ
as_i32 v = if ltb v (2 ^ 31) then pos v else negsuc (2 ^ 32 - 1 - v)

abbrev pub as_u32 : ℤ → ℕ
as_u32 (pos n) = n % 2 ^ 32
as_u32 (negsuc n) = 2 ^ 32 - 1 - n % 2 ^ 32

abbrev pub max_frame : ℕ
max_frame = 1024 * 1024

abbrev pub read_body : ℕ → List ℕ → Result ReadError (AttachFrame × List ℕ)
read_body len stream =
    let exit =
      read_exact 4 stream >>= λ (code, rest). ok (exit_frame (as_i32 (be_u32 0 code)), rest) in
    let chunk = read_exact len stream >>= λ (bytes, rest). ok (data_frame bytes, rest) in
    if len == 0 then exit else if ltb max_frame len then err frame_too_large else chunk

-- The frame, and what is behind it
unfoldable pub read_attach_frame : List ℕ → Result ReadError (AttachFrame × List ℕ)
read_attach_frame [] = ok (eof, [])
read_attach_frame (b ∷ stream) =
    read_exact 3 stream >>= λ (prefix, rest). read_body (be_u32 0 (b ∷ prefix)) rest

-- The frame that `broadcast` writes, and the one of `close_all`
unfoldable pub frame_of : List ℕ → List ℕ
unfolding be32
frame_of chunk = be32 (length chunk % 2 ^ 32) ++ chunk

unfoldable pub exit_bytes : ℤ → List ℕ
unfolding be32
exit_bytes code = be32 0 ++ be32 (as_u32 code)

-- A client: what it was sent, and how many more writes succeed
pub record Client : Type 0 where
  pub received : List ℕ
  pub patience : ℕ

abbrev pub send : List ℕ → Client → Option Client
send frame c =
    if c.patience == 0
    then none
    else some (record { received = c.received ++ frame; patience = c.patience - 1 })

abbrev pub kept : Option Client → List Client → List Client
kept none rest = rest
kept (some c) rest = c ∷ rest

-- `list.retain_mut(|client| client.write_all(&frame).is_ok())`
abbrev pub send_all : List ℕ → List Client → List Client
send_all frame [] = []
send_all frame (c ∷ clients) = kept (send frame c) (send_all frame clients)

unfoldable pub broadcast : List ℕ → List Client → List Client
unfolding frame_of
broadcast [] clients = clients
broadcast (b ∷ chunk) clients = send_all (frame_of (b ∷ chunk)) clients

-- The bytes that every client got once all are closed
abbrev received_after : Option Client → Client → List ℕ
received_after none c = c.received
received_after (some d) c = d.received

unfoldable pub close_all : ℤ → List Client → List (List ℕ)
unfolding exit_bytes
close_all code [] = []
close_all code (c ∷ clients) = received_after (send (exit_bytes code) c) c ∷ close_all code clients

pub data AttachError : Type 0 where
  read_failed : ReadError → AttachError
  write_failed : AttachError

-- What the loop of `zerun attach` in src/main.rs prints, and the exit code if it was told one
abbrev pub Attached : Type 0
Attached = Result AttachError (List ℕ × Option ℤ)

abbrev pub printing : List ℕ → Attached → Attached
printing bytes (err e) = err e
printing bytes (ok (later, code)) = ok (bytes ++ later, code)

-- `later` continues the loop with the writes to the standard output that still succeed.
abbrev pub on_frame : AttachFrame → ℕ → (ℕ → Attached) → Attached
on_frame (data_frame bytes) zero later = err write_failed
on_frame (data_frame bytes) (suc writes) later = printing bytes (later writes)
on_frame (exit_frame code) writes later = ok ([], some code)
on_frame eof writes later = ok ([], none)

abbrev pub on_read :
    Result ReadError (AttachFrame × List ℕ) → (AttachFrame → List ℕ → Attached) → Attached
on_read (err e) next = err (read_failed e)
on_read (ok (frame, rest)) next = next frame rest

-- Every frame takes a byte, so the length of the stream is fuel enough.
unfoldable pub attach_from : ℕ → ℕ → List ℕ → Attached
unfolding read_attach_frame
attach_from zero writes stream = ok ([], none)
attach_from (suc fuel) writes stream =
    on_read (read_attach_frame stream)
      (λ frame rest. on_frame frame writes (λ left. attach_from fuel left rest))

unfoldable pub attach_output : ℕ → List ℕ → Attached
unfolding attach_from
attach_output writes stream = attach_from (suc (length stream)) writes stream
