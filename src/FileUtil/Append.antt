-- ===== src/FileUtil/Append.antt =====
-- What the loop of AppendFile::append hands to stdio.
use wserver.Prelude.{
  ℕ, ◌<◌, ◌≢◌, ◌≡◌, ◌≤◌, inl, inr, refl, ap, ◌∙◌, true, false, List, [], ◌∷◌, ◌++◌, length, take,
  drop, leb, append-nil, append_assoc, take-append-drop, length-take, length-drop, length-append,
  arith, Bool-cases,
}
use wserver.FileUtil.{Taken, write_loop}

-- No call of fwrite fails.
abbrev pub NoError : List Taken → Type 0
NoError [] = Unit {0}
NoError (t ∷ ts) = (t.err ≡ false) × NoError ts

-- What the loop takes of a message: a prefix, no shorter than it counts, and all of it, counted, where
-- no call fails.
pub record Wrote (msg : List ℕ) (ts : List Taken) (w : List ℕ × ℕ) : Type 0 where
  pub left : List ℕ
  pub prefix : w.0 ++ left ≡ msg
  pub counted : w.1 ≤ length w.0
  pub all : NoError ts → (w.0 ≡ msg) × (w.1 ≡ length msg)

no_error : true ≢ false
no_error e = cc

pub write_loop_correct : (msg : List ℕ) (ts : List Taken) → Wrote msg ts (write_loop msg ts)
unfolding write_loop
write_loop_correct msg [] = record {
  left = [];
  prefix = append-nil msg;
  counted = omega arith;
  all = λ _. (refl, refl);
}
write_loop_correct msg (t ∷ ts) = elim (Bool-cases (leb (length msg) t.most)) [
  | inl e ↦ rw e (record {
    left = [];
    prefix = append-nil msg;
    counted = omega arith;
    all = λ _. (refl, refl);
  })
  | inr e ↦ elim (Bool-cases t.err) [
    | inl f ↦
        rw (e, f)
          (record {
            left = drop t.most msg;
            prefix = take-append-drop t.most msg;
            counted = omega arith;
            all = λ h. absurd (no_error h.0);
          })
    | inr f ↦
        let ih = write_loop_correct (drop t.most msg) ts in
        let l = length-take t.most msg in
        let d = length-drop t.most msg in
        let m = length-append (take t.most msg) (write_loop (drop t.most msg) ts).0 in
        let less : t.most < length msg = ground (arith, e) in
        rw (e, f)
          (record {
            left = ih.left;
            prefix =
                append_assoc (take t.most msg) (write_loop (drop t.most msg) ts).0 ih.left
                ∙ ap (λ x. take t.most msg ++ x) ih.prefix
                ∙ take-append-drop t.most msg;
            counted = omega (arith, ih.counted, l, m, less);
            all = λ h. (
              ap (λ x. take t.most msg ++ x) (ih.all h.1).0 ∙ take-append-drop t.most msg,
              omega (arith, (ih.all h.1).1, d, less),
            );
          })
  ]
]
