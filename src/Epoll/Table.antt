-- ===== src/Epoll/Table.antt =====
-- A kernel for the tests: its table of descriptors is a function.
use wserver.Prelude.{ℕ, refl, Bool, true, false, Option, none, some}
use wserver.Epoll.{CtlOp, ctl_add, ctl_mod, ctl_del, Kernel, put}

abbrev pub Table : Type 0
Table = ℕ → Option ℕ

abbrev table_ctl : CtlOp → ℕ → ℕ → Table → Bool × Table
table_ctl ctl_add fd ev s = elim (s fd) [
  | none ↦ (true, put s fd (some ev))
  | some old ↦ (false, s)
]
table_ctl ctl_mod fd ev s = elim (s fd) [
  | none ↦ (false, s)
  | some old ↦ (true, put s fd (some ev))
]
table_ctl ctl_del fd ev s = elim (s fd) [ none ↦ (false, s) | some old ↦ (true, put s fd none) ]

abbrev pub table_kernel : Kernel
table_kernel = record {
  State = Table;
  registered = λ s fd. s fd;
  ctl = table_ctl;
  add_succeeds = λ s fd ev h. rw (table_ctl, h) refl;
  add_registers = λ s fd ev j h. rw (table_ctl, h) refl;
  mod_succeeds = λ s fd ev old h. rw (table_ctl, h) refl;
  mod_registers = λ s fd ev old j h. rw (table_ctl, h) refl;
  del_succeeds = λ s fd ev old h. rw (table_ctl, h) refl;
  del_registers = λ s fd ev old j h. rw (table_ctl, h) refl;
}
