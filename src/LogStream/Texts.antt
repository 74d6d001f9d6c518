-- ===== src/LogStream/Texts.antt =====
-- What the operators << leave in the buffer.
use wserver.Prelude.{
  ℕ, ◌+◌, ◌-◌, ◌^◌, ◌≡◌, ◌<◌, ◌≤◌, refl, sym, ap, subst, ◌∙◌, List, [], ◌∷◌, ◌++◌, length,
  length-append, take, take-append_left, drop, append-nil, append_assoc, Returns, Returns-bind,
  true, false, suc, ◌==◌, inl, inr, Bool-cases, length-replicate, ltb, arith,
}
use wserver.Buffer.{overwrite}
use wserver.Buffer.Append.{copy_to_lem, length-overwrite}
use wserver.LogStream.{
  nonnegative, FixedBuffer, available, strncpy, append, format_integer, text_of, put_integer,
  put_string, put_strings,
}
use wserver.LogStream.Digits.{Converted, convert_correct}

-- A buffer of `size` bytes that holds `text`.
pub record Holds (size : ℕ) (text : List ℕ) (b : FixedBuffer) : Type 0 where
  pub index : b.cur_index ≡ length text
  pub bytes : take (length text) b.buf ≡ text
  pub whole : length b.buf ≡ size
  pub fits : length text ≤ size

-- The texts, each as strncpy copies it.
abbrev pub joined : List (List ℕ) → List ℕ
joined [] = []
joined (p ∷ ps) = strncpy p ++ joined ps

taken : (t vs more rest : List ℕ) → take (length (t ++ vs)) (t ++ ((vs ++ more) ++ rest)) ≡ t ++ vs
taken t vs more rest =
    ap (take (length (t ++ vs)))
      (ap (λ x. t ++ x) (append_assoc vs more rest) ∙ sym (append_assoc t vs (more ++ rest)))
    ∙ take-append_left (t ++ vs) (more ++ rest) (length (t ++ vs)) refl

-- `vs` and then `more` are written behind the text, and the index advances over `vs`.
overwrite-Holds :
    (size : ℕ) (t vs more : List ℕ) (b : FixedBuffer)
    → Holds size t b
    → length t + length (vs ++ more) ≤ size
    → Holds size (t ++ vs) (record {
      cur_index = b.cur_index + length vs;
      buf = overwrite b.buf b.cur_index (vs ++ more);
    })
overwrite-Holds size t vs more b h room = record {
  index = omega (arith, h.index, length-append t vs);
  bytes =
      ap
        (λ x.
          take (length (t ++ vs))
            (x ++ ((vs ++ more) ++ drop (b.cur_index + length (vs ++ more)) b.buf)))
        (ap (λ i. take i b.buf) h.index ∙ h.bytes)
      ∙ taken t vs more (drop (b.cur_index + length (vs ++ more)) b.buf);
  whole =
      length-overwrite b.buf b.cur_index (vs ++ more) (omega (arith, h.index, h.whole)) ∙ h.whole;
  fits = omega (arith, length-append t vs, length-append vs more);
}

pub text_of-Holds : (size : ℕ) (t : List ℕ) (b : FixedBuffer) → Holds size t b → text_of b ≡ t
unfolding text_of
text_of-Holds size t b h = ap (λ i. take i b.buf) h.index ∙ h.bytes

pub length-strncpy : (msg : List ℕ) → length (strncpy msg) ≡ length msg
unfolding strncpy
length-strncpy [] = refl
length-strncpy (c ∷ cs) = elim (Bool-cases (c == 0)) [
  | inl e ↦ rw e (ap suc (length-replicate (length cs) 0))
  | inr e ↦ rw e (ap suc (length-strncpy cs))
]

pub put_string-Holds :
    (size : ℕ) (t msg : List ℕ) (b : FixedBuffer)
    → Holds size t b
    → length t + length msg ≤ size
    → Returns (Holds size (t ++ strncpy msg)) (put_string msg b)
unfolding put_string append
put_string-Holds size t msg b h room =
    let cs = strncpy msg in
    let same = length-strncpy msg in
    rw (copy_to_lem b.buf b.cur_index cs (omega (arith, h.index, h.whole, same))) (
      _,
      refl,
      subst
          (λ i.
            Holds size (t ++ cs)
              (record { cur_index = b.cur_index + i; buf = overwrite b.buf b.cur_index cs }))
          same
          (subst
            (λ x.
              Holds size (t ++ cs) (record {
                cur_index = b.cur_index + length cs;
                buf = overwrite b.buf b.cur_index x;
              }))
            (append-nil cs)
            (overwrite-Holds size t cs [] b h (omega (arith, length-append cs [], same)))),
    )

pub put_strings-Holds :
    (size : ℕ) (t : List ℕ) (ps : List (List ℕ)) (b : FixedBuffer)
    → Holds size t b
    → length t + length (joined ps) ≤ size
    → Returns (Holds size (t ++ joined ps)) (put_strings ps b)
unfolding put_strings
put_strings-Holds size t [] b h room = (b, refl, subst (λ x. Holds size x b) (sym (append-nil t)) h)
put_strings-Holds size t (p ∷ ps) b h room =
    Returns-bind (Holds size (t ++ strncpy p)) _ (put_string p b) _
      (put_string-Holds size t p b h
        (omega (arith, length-append (strncpy p) (joined ps), length-strncpy p)))
      λ b' h'.
        subst (λ x. Returns (Holds size x) (put_strings ps b'))
          (append_assoc t (strncpy p) (joined ps))
          (put_strings-Holds size (t ++ strncpy p) ps b' h'
            (omega (arith, length-append (strncpy p) (joined ps), length-append t (strncpy p))))

-- A number is written where more than 48 bytes are left.
pub put_integer-Holds :
    (size : ℕ) (t : List ℕ) (n : ℕ) (b : FixedBuffer)
    → Holds size t b
    → length t + 48 < size
    → n < 2 ^ 64
    → (cs : List ℕ) × Converted n false cs
      × Returns (Holds size (t ++ cs)) (put_integer (nonnegative n) b)
unfolding put_integer format_integer available
put_integer-Holds size t n b h room small =
    let (cs, e, c) = convert_correct n false in
    let more : ltb 48 (length b.buf - b.cur_index) ≡ true = ground (arith, h.whole, h.index) in
    let fits : length t + length (cs ++ 0 ∷ []) ≤ size =
      omega (arith, length-append cs (0 ∷ []), c.short small) in
    (
      cs,
      c,
      rw
          (
            more,
            e,
            copy_to_lem b.buf b.cur_index (cs ++ 0 ∷ []) (omega (arith, h.whole, h.index, fits)),
          )
          (_, refl, overwrite-Holds size t cs (0 ∷ []) b h fits),
    )
