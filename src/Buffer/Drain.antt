-- ===== src/Buffer/Drain.antt =====
-- writeToFd, by how much of the buffer the calls of write leave.
use wserver.Prelude.{
  ℕ, ◌+◌, ◌-◌, ◌≡◌, refl, sym, ap, ◌∙◌, inl, inr, min, List, [], ◌∷◌, ◌++◌, length, take,
  length-drop, append-nil, Bool-cases, ◌==◌, if◌then◌else◌, arith,
}
use wserver.Buffer.{
  Buffer, Count, bytes, contents, readable_bytes, WriteResult, takes, advance, write_loop,
  write_to_fd,
}
use wserver.Buffer.Append.{IsValid, readable_bytes_lem, length-contents}
use wserver.Buffer.Io.{advance_correct, NeverFails, write_to_fd_correct}

-- The bytes that stay behind, of `n`, after the calls `ws` of write.
abbrev pub left : ℕ → List WriteResult → ℕ
left n [] = n
left n (WriteResult.again ∷ ws) = n
left n (WriteResult.failed ∷ ws) = n
left n (WriteResult.interrupted ∷ ws) = left n ws
left n (takes m ∷ ws) = let rest = left (n - min m n) ws in if min m n == 0 then n else rest

-- The indices go back to 0 once they meet.
abbrev pub IsTrim : Buffer → Type 0
IsTrim b = b.read_index ≡ b.write_index → b.write_index ≡ 0

advance-IsTrim : (b : Buffer) (n : ℕ) → IsTrim (advance b n)
unfolding advance
advance-IsTrim b n = elim (Bool-cases (b.read_index + n == b.write_index)) [
  | inl e ↦ rw e (λ _. refl)
  | inr e ↦ rw e (λ h. absurd (ground arith))
]

record Left (n : ℕ) (b : Buffer) : Type 0 where
  size : length (contents b) ≡ n
  trim : IsTrim b

write_loop-Left :
    (b : Buffer) (all : ℕ) (sent : List ℕ) (ws : List WriteResult)
    → IsValid b
    → IsTrim b
    → Left (left (length (contents b)) ws) (write_loop b all sent ws).0
unfolding write_loop
write_loop-Left b all sent [] v t = record { size = refl; trim = t }
write_loop-Left b all sent (WriteResult.again ∷ ws) v t = record { size = refl; trim = t }
write_loop-Left b all sent (WriteResult.failed ∷ ws) v t = record { size = refl; trim = t }
write_loop-Left b all sent (WriteResult.interrupted ∷ ws) v t = write_loop-Left b all sent ws v t
write_loop-Left b all sent (takes m ∷ ws) v t =
    let size : readable_bytes b ≡ length (contents b) =
      readable_bytes_lem b v ∙ sym (length-contents b v) in
    let n = min m (length (contents b)) in
    let moved = advance_correct b n v (omega arith) in
    let less : length (contents (advance b n)) ≡ length (contents b) - n =
      ap length moved.same ∙ length-drop n (contents b) in
    rw size (elim (Bool-cases (n == 0)) [
      | inl e ↦ rw e (record { size = refl; trim = t })
      | inr e ↦
          let rest =
            write_loop-Left (advance b n) (all + n) (sent ++ take n (contents b)) ws moved.valid
              (advance-IsTrim b n) in
          rw e (record { size = rest.size ∙ ap (λ n. left n ws) less; trim = rest.trim })
    ])

write_to_fd-Left :
    (b : Buffer) (ws : List WriteResult)
    → IsValid b
    → IsTrim b
    → Left (left (length (contents b)) ws) (write_to_fd b ws).0
unfolding write_to_fd
write_to_fd-Left b ws v t = write_loop-Left b 0 [] ws v t

-- What a run of writeToFd that takes every byte leaves.
pub record Drained (b : Buffer) (r : Buffer × Count × List ℕ) : Type 0 where
  pub valid : IsValid r.0
  pub read_index : r.0.read_index ≡ 0
  pub write_index : r.0.write_index ≡ 0
  pub count : r.1 ≡ bytes (length (contents b))
  pub sent : r.2 ≡ contents b

-- writeToFd on a valid buffer whose indices only meet at 0, where no call of write fails but by EINTR
-- and EAGAIN and the calls leave nothing behind: the bytes of the buffer went out, their number is
-- the value, and the buffer is empty with its whole room in front of it.
pub write_to_fd-Drained :
    (b : Buffer) (ws : List WriteResult)
    → IsValid b
    → IsTrim b
    → NeverFails ws
    → left (length (contents b)) ws ≡ 0
    → Drained b (write_to_fd b ws)
write_to_fd-Drained b ws v t clean none_left =
    let r = write_to_fd b ws in
    let s = write_to_fd_correct b ws v in
    let l = write_to_fd-Left b ws v t in
    let size : length (contents r.0) ≡ 0 = l.size ∙ none_left in
    let all : r.2 ≡ contents b =
      sym (append-nil r.2) ∙ ap (λ x. r.2 ++ x) (sym (empty (contents r.0) size)) ∙ s.whole in
    let meet : r.0.read_index ≡ r.0.write_index =
      omega (arith, size, length-contents r.0 s.valid, s.valid.ordered) in
    record {
      valid = s.valid;
      read_index = meet ∙ l.trim meet;
      write_index = l.trim meet;
      count = s.clean clean ∙ ap (λ x. bytes (length x)) all;
      sent = all;
    }
  where
    empty : (xs : List ℕ) → length xs ≡ 0 → xs ≡ []
    empty [] e = refl
    empty (x ∷ xs) e = absurd (omega (arith, e))
