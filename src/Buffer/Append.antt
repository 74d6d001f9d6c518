-- ===== src/Buffer/Append.antt =====
-- append and the space it makes, against the bytes that a reader sees.
use wserver.Prelude.{
  ℕ, ◌+◌, ◌-◌, ◌^◌, ◌≤◌, ◌<◌, ◌≡◌, refl, ap, ◌∙◌, inl, inr, List, ◌++◌, length, take, drop,
  replicate, length-append, length-take, length-drop, length-replicate, take-append_left,
  take-append_le, drop-take, drop-append_le, take-all, append_assoc, done, Returns, Returns-bind,
  Bool-cases, ltb, leb, leb→le, ltb→lt, ltb_false→le, arith,
}
use wserver.Buffer.{
  Buffer, size_sub, writable_bytes, pre_writable_bytes, readable_bytes, slice, overwrite, copy_to,
  resize, contents, clear_useless_data, make_space, ensure_enough_space, append,
}

-- The picture in Buffer.h, and a size that an int holds.
pub record IsValid (b : Buffer) : Type 0 where
  pub ordered : b.read_index ≤ b.write_index
  pub inside : b.write_index ≤ length b.storage
  pub small : length b.storage < 2 ^ 31

pub size_sub_lem : (a b : ℕ) → b ≤ a → a < 2 ^ 31 → size_sub a b ≡ a - b
unfolding size_sub
size_sub_lem a b h k = omega arith

pub writable_bytes_lem :
    (b : Buffer) → IsValid b → writable_bytes b ≡ length b.storage - b.write_index
unfolding writable_bytes
writable_bytes_lem b v = size_sub_lem _ _ v.inside v.small

pub readable_bytes_lem : (b : Buffer) → IsValid b → readable_bytes b ≡ b.write_index - b.read_index
unfolding readable_bytes
readable_bytes_lem b v = size_sub_lem _ _ v.ordered (omega (arith, v.inside, v.small))

pub length-slice : (xs : List ℕ) (i j : ℕ) → i ≤ j → j ≤ length xs → length (slice xs i j) ≡ j - i
length-slice xs i j h k = omega (arith, length-take (j - i) (drop i xs), length-drop i xs)

pub length-contents : (b : Buffer) → IsValid b → length (contents b) ≡ b.write_index - b.read_index
length-contents b v = length-slice b.storage b.read_index b.write_index v.ordered v.inside

pub length-overwrite :
    (xs : List ℕ) (i : ℕ) (vs : List ℕ)
    → i + length vs ≤ length xs
    → length (overwrite xs i vs) ≡ length xs
length-overwrite xs i vs h = omega (
  arith,
  length-append (take i xs) (vs ++ drop (i + length vs) xs),
  length-append vs (drop (i + length vs) xs),
  length-take i xs,
  length-drop (i + length vs) xs,
)

-- Bytes written at the end of a slice become its last bytes.
slice-overwrite :
    (xs : List ℕ) (i j : ℕ) (vs : List ℕ)
    → i ≤ j
    → j + length vs ≤ length xs
    → slice (overwrite xs j vs) i (j + length vs) ≡ slice xs i j ++ vs
slice-overwrite xs i j vs h k =
    let rest = drop (j + length vs) xs in
    rw
      (
        drop-append_le (take j xs) (vs ++ rest) i (omega (arith, length-take j xs)),
        drop-take i j xs,
        ← append_assoc (slice xs i j) vs rest,
      )
      (take-append_left (slice xs i j ++ vs) rest (j + length vs - i)
        (omega (arith, length-append (slice xs i j) vs, length-slice xs i j h)))

slice-append :
    (xs ys : List ℕ) (i j : ℕ) → i ≤ j → j ≤ length xs → slice (xs ++ ys) i j ≡ slice xs i j
slice-append xs ys i j h k =
    rw (drop-append_le xs ys i (omega arith))
      (take-append_le (drop i xs) ys (j - i) (omega (arith, length-drop i xs)))

pub copy_to_lem :
    (xs : List ℕ) (i : ℕ) (vs : List ℕ)
    → i + length vs ≤ length xs
    → copy_to xs i vs ≡ done (overwrite xs i vs)
unfolding copy_to
copy_to_lem xs i vs h = ground arith

-- A buffer with the same bytes for its reader, and room for `n` more behind them.
pub record HasRoom (b : Buffer) (n : ℕ) (b' : Buffer) : Type 0 where
  pub valid : IsValid b'
  pub same : contents b' ≡ contents b
  pub room : b'.write_index + n ≤ length b'.storage
  pub bounded : b'.write_index ≤ b.write_index

clear_useless_data_lem :
    (b : Buffer)
    → IsValid b
    → clear_useless_data b
      ≡ done (record {
        read_index = 0;
        write_index = b.write_index - b.read_index;
        storage = overwrite b.storage 0 (contents b);
      })
unfolding clear_useless_data
clear_useless_data_lem b v = rw (
  copy_to_lem b.storage 0 (contents b) (omega (arith, length-contents b v, v.inside)),
  readable_bytes_lem b v,
)

clear_useless_data_correct :
    (b : Buffer) (n : ℕ)
    → IsValid b
    → b.write_index - b.read_index + n ≤ length b.storage
    → Returns (HasRoom b n) (clear_useless_data b)
clear_useless_data_correct b n v h =
    let size = length-contents b v in
    let fits : 0 + length (contents b) ≤ length b.storage = omega (arith, size, v.inside) in
    let kept = length-overwrite b.storage 0 (contents b) fits in
    (
      _,
      clear_useless_data_lem b v,
      record {
        valid = record {
          ordered = omega arith;
          inside = omega (arith, kept, v.inside);
          small = omega (arith, kept, v.small);
        };
        same =
            ap (slice (overwrite b.storage 0 (contents b)) 0) (omega (arith, size))
            ∙ slice-overwrite b.storage 0 0 (contents b) (omega arith) fits;
        room = omega (arith, kept, h);
        bounded = omega arith;
      },
    )

resize_longer :
    (xs : List ℕ) (n : ℕ) → length xs ≤ n → resize xs n ≡ xs ++ replicate (n - length xs) 0
unfolding resize
resize_longer xs n h = rw (take-all n xs h)

grown_HasRoom :
    (b : Buffer) (n : ℕ)
    → IsValid b
    → b.write_index + n < 2 ^ 31
    → length b.storage < b.write_index + n
    → HasRoom b n (record b { storage = resize b.storage (b.write_index + n) })
grown_HasRoom b n v h short =
    let longer = resize_longer b.storage (b.write_index + n) (omega arith) in
    let zeros : List ℕ = replicate (b.write_index + n - length b.storage) 0 in
    let size = length-append b.storage zeros in
    let added = length-replicate {A = ℕ} (b.write_index + n - length b.storage) 0 in
    let size' : length (resize b.storage (b.write_index + n)) ≡ b.write_index + n =
      rw longer (omega (arith, size, added, v.inside)) in
    record {
      valid = record { ordered = v.ordered; inside = omega arith; small = omega arith };
      same = rw longer (slice-append b.storage zeros b.read_index b.write_index v.ordered v.inside);
      room = omega arith;
      bounded = omega arith;
    }

make_space_correct :
    (b : Buffer) (n : ℕ)
    → IsValid b
    → b.write_index + n < 2 ^ 31
    → length b.storage < b.write_index + n
    → Returns (HasRoom b n) (make_space b n)
unfolding make_space pre_writable_bytes
make_space_correct b n v h short =
    let free = b.read_index + (length b.storage - b.write_index) in
    rw (writable_bytes_lem b v) (elim (Bool-cases (leb n free)) [
      | inl moves ↦ rw moves (
          clear_useless_data_correct b n v
            (omega (arith, leb→le n free moves, v.inside, v.ordered)))
      | inr grows ↦ rw grows (_, refl, grown_HasRoom b n v h short)
    ])

-- ensureEnoughSpace keeps what the reader sees and makes room for `n` bytes.
pub ensure_enough_space_correct :
    (b : Buffer) (n : ℕ)
    → IsValid b
    → b.write_index + n < 2 ^ 31
    → Returns (HasRoom b n) (ensure_enough_space b n)
unfolding ensure_enough_space
ensure_enough_space_correct b n v h =
    let room = length b.storage - b.write_index in
    rw (writable_bytes_lem b v) (elim (Bool-cases (ltb room n)) [
      | inl short ↦
          rw short (make_space_correct b n v h (omega (arith, ltb→lt room n short, v.inside)))
      | inr enough ↦ rw enough (
        b,
        refl,
        record {
          valid = v;
          same = refl;
          room = omega (arith, ltb_false→le room n enough, v.inside);
          bounded = omega arith;
        },
      )
    ])

-- What append leaves: the new bytes behind those that were there.
pub record Appended (b : Buffer) (msg : List ℕ) (b' : Buffer) : Type 0 where
  pub valid : IsValid b'
  pub same : contents b' ≡ contents b ++ msg
  pub bounded : b'.write_index ≤ b.write_index + length msg

-- append, on a valid buffer whose indices stay below 2 ^ 31: the call ends with no access out of
-- bounds, the reader sees the old bytes and then `msg`, and the buffer is valid again.
pub append_correct :
    (b : Buffer) (msg : List ℕ)
    → IsValid b
    → b.write_index + length msg < 2 ^ 31
    → Returns (Appended b msg) (append b msg)
unfolding append
append_correct b msg v h =
    Returns-bind (HasRoom b (length msg)) (Appended b msg) (ensure_enough_space b (length msg)) _
      (ensure_enough_space_correct b (length msg) v h)
      λ b' r.
        let size = length-overwrite b'.storage b'.write_index msg r.room in
        rw (copy_to_lem b'.storage b'.write_index msg r.room) (
          _,
          refl,
          record {
            valid = record {
              ordered = omega (arith, r.valid.ordered);
              inside = omega (arith, r.room, size);
              small = omega (arith, r.valid.small, size);
            };
            same =
                slice-overwrite b'.storage b'.read_index b'.write_index msg r.valid.ordered r.room
                ∙ ap (λ c. c ++ msg) r.same;
            bounded = omega (arith, r.bounded);
          },
        )
