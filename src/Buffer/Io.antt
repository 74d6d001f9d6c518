-- ===== src/Buffer/Io.antt =====
-- readFromFd and writeToFd: what a buffer and a socket exchange, by the results of the system calls.
use wserver.Prelude.{
  ℕ, ◌+◌, ◌^◌, ◌≤◌, ◌<◌, ◌≡◌, refl, sym, ap, ◌∙◌, inl, inr, ◌⊎◌, min, List, [], ◌∷◌, ◌++◌, length,
  take, drop, length-append, length-take, take-append-drop, append-nil, append_assoc, done, Returns,
  Returns-bind, Bool-cases, ◌==◌, arith,
}
use wserver.Buffer.{
  Buffer, contents, append, readable_bytes, ReadResult, got, eof, interrupted, again, failed, Count,
  bytes, minus_one, read_loop, read_from_fd, WriteResult, takes, advance, write_loop, write_to_fd,
}
use wserver.Buffer.Append.{IsValid, Appended, append_correct, readable_bytes_lem, length-contents}
use wserver.Buffer.Line.{slice-suffix, slice-none}

-- The bytes that arrive before the read loop ends.
abbrev pub received : List ReadResult → List ℕ
received (got chunk ∷ rs) = chunk ++ received rs
received (interrupted ∷ rs) = received rs
received _ = []

-- The value of readFromFd when `n` bytes have arrived before the results `rs`.
abbrev pub outcome : ℕ → List ReadResult → Count
outcome n (got chunk ∷ rs) = outcome (n + length chunk) rs
outcome n (interrupted ∷ rs) = outcome n rs
outcome n (eof ∷ rs) = bytes 0
outcome n (failed ∷ rs) = minus_one
outcome n _ = bytes n

pub record Received (b : Buffer) (n : ℕ) (rs : List ReadResult) (r : Buffer × Count) : Type 0 where
  pub valid : IsValid r.0
  pub same : contents r.0 ≡ contents b ++ received rs
  pub count : r.1 ≡ outcome n rs

kept_Received :
    (b : Buffer) (n : ℕ) (rs : List ReadResult) (k : Count)
    → IsValid b
    → received rs ≡ []
    → k ≡ outcome n rs
    → Returns (Received b n rs) (done (b, k))
kept_Received b n rs k v e c =
    (_, refl, record { valid = v; same = sym (rw e (append-nil (contents b))); count = c })

read_loop_correct :
    (b : Buffer) (n : ℕ) (rs : List ReadResult)
    → IsValid b
    → b.write_index + length (received rs) < 2 ^ 31
    → Returns (Received b n rs) (read_loop b n rs)
unfolding read_loop
read_loop_correct b n [] v h = kept_Received b n [] _ v refl refl
read_loop_correct b n (again ∷ rs) v h = kept_Received b n (again ∷ rs) _ v refl refl
read_loop_correct b n (failed ∷ rs) v h = kept_Received b n (failed ∷ rs) _ v refl refl
read_loop_correct b n (eof ∷ rs) v h = kept_Received b n (eof ∷ rs) _ v refl refl
read_loop_correct b n (interrupted ∷ rs) v h =
    let (r, e, p) = read_loop_correct b n rs v h in
    (r, e, record { valid = p.valid; same = p.same; count = p.count })
read_loop_correct b n (got chunk ∷ rs) v h =
    let size = length-append chunk (received rs) in
    Returns-bind (Appended b chunk) (Received b n (got chunk ∷ rs)) (append b chunk) _
      (append_correct b chunk v (omega arith))
      λ b' a.
        let (r, e, p) =
          read_loop_correct b' (n + length chunk) rs a.valid (omega (arith, a.bounded)) in
        (
          r,
          e,
          record {
            valid = p.valid;
            same =
                p.same
                ∙ ap (λ c. c ++ received rs) a.same
                ∙ append_assoc (contents b) chunk (received rs);
            count = p.count;
          },
        )

-- readFromFd, on a valid buffer and while the indices stay below 2 ^ 31: whatever the calls of read
-- give, it ends, the bytes that arrived before the end stand behind those that the buffer held, and
-- the value is their number if the socket ran dry, 0 if the peer closed, and -1 on an error.
pub read_from_fd_correct :
    (b : Buffer) (rs : List ReadResult)
    → IsValid b
    → b.write_index + length (received rs) < 2 ^ 31
    → Returns (Received b 0 rs) (read_from_fd b rs)
unfolding read_from_fd
read_from_fd_correct b rs v h = read_loop_correct b 0 rs v h

pub record Advanced (b : Buffer) (n : ℕ) (b' : Buffer) : Type 0 where
  pub valid : IsValid b'
  pub same : contents b' ≡ drop n (contents b)

pub advance_correct :
    (b : Buffer) (n : ℕ) → IsValid b → n ≤ length (contents b) → Advanced b n (advance b n)
unfolding advance
advance_correct b n v h =
    let size = length-contents b v in
    let rest = slice-suffix b n in
    elim (Bool-cases (b.read_index + n == b.write_index)) [
      | inl all ↦ rw all (record {
        valid = record { ordered = omega arith; inside = omega arith; small = v.small };
        same =
            sym (sym rest ∙ slice-none b.storage (b.read_index + n) b.write_index (ground arith));
      })
      | inr some_left ↦ rw some_left (record {
        valid = record { ordered = omega arith; inside = v.inside; small = v.small };
        same = rest;
      })
    ]

-- No call of write fails with another error than EINTR and EAGAIN.
abbrev pub NeverFails : List WriteResult → Type 0
NeverFails [] = Unit {0}
NeverFails (WriteResult.failed ∷ ws) = ⊥
NeverFails (_ ∷ ws) = NeverFails ws

-- What a run of writeToFd leaves, after `all` bytes, the bytes `sent`, went out.
pub record Sent (b : Buffer) (sent : List ℕ) (ws : List WriteResult) (r : Buffer × Count × List ℕ)
    : Type 0 where
  pub valid : IsValid r.0
  pub whole : r.2 ++ contents r.0 ≡ sent ++ contents b
  pub count : (r.1 ≡ minus_one) ⊎ (r.1 ≡ bytes (length r.2))
  pub clean : NeverFails ws → r.1 ≡ bytes (length r.2)

write_loop_correct :
    (b : Buffer) (sent : List ℕ) (ws : List WriteResult)
    → IsValid b
    → Sent b sent ws (write_loop b (length sent) sent ws)
unfolding write_loop
write_loop_correct b sent [] v = record {
  valid = v;
  whole = refl;
  count = inr refl;
  clean = λ _. refl;
}
write_loop_correct b sent (WriteResult.again ∷ ws) v = record {
  valid = v;
  whole = refl;
  count = inr refl;
  clean = λ _. refl;
}
write_loop_correct b sent (WriteResult.failed ∷ ws) v = record {
  valid = v;
  whole = refl;
  count = inl refl;
  clean = λ h. absurd h;
}
write_loop_correct b sent (WriteResult.interrupted ∷ ws) v =
    let rest = write_loop_correct b sent ws v in
    record { valid = rest.valid; whole = rest.whole; count = rest.count; clean = rest.clean }
write_loop_correct b sent (takes m ∷ ws) v =
    let n = min m (readable_bytes b) in
    let size = length-contents b v in
    let part = take n (contents b) in
    let fits : n ≤ length (contents b) = omega (arith, readable_bytes_lem b v) in
    let count : length (sent ++ part) ≡ length sent + n =
      omega (arith, length-append sent part, length-take n (contents b)) in
    let next = advance_correct b n v fits in
    elim (Bool-cases (n == 0)) [
      | inl nothing ↦
          rw nothing (record { valid = v; whole = refl; count = inr refl; clean = λ _. refl })
      | inr moved ↦
          let rest : Sent (advance b n) (sent ++ part) ws
              (write_loop (advance b n) (length sent + n) (sent ++ part) ws) =
            rw count at (write_loop_correct (advance b n) (sent ++ part) ws next.valid) in
          rw moved (record {
            valid = rest.valid;
            whole =
                rest.whole
                ∙ ap (◌++◌ (sent ++ part)) next.same
                ∙ append_assoc sent part (drop n (contents b))
                ∙ ap (◌++◌ sent) (take-append-drop n (contents b));
            count = rest.count;
            clean = rest.clean;
          })
    ]

-- writeToFd on a valid buffer, whatever the calls of write give: the bytes that went out, followed by
-- those that the buffer still holds, are the bytes that it held; the value is the number of bytes
-- that went out, or -1, and never -1 where no call fails but by EINTR and EAGAIN; and the buffer is
-- valid.
pub write_to_fd_correct :
    (b : Buffer) (ws : List WriteResult) → IsValid b → Sent b [] ws (write_to_fd b ws)
unfolding write_to_fd
write_to_fd_correct b ws v = write_loop_correct b [] ws v
