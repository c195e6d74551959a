-- ===== src/Col/Ringbuffer/Tests.antt =====
-- Runs of ringbuffer.c, and its theorems at concrete buffers.
use sdk_dslink_c.Prelude.{ℕ, ◌≡◌, refl, true, List, [], ◌∷◌, none, some, arith, pos, minus_one}
use sdk_dslink_c.Prelude.Run.{ok, fault}
use sdk_dslink_c.Col.Ringbuffer.{Ringbuffer, rb_init, rb_push, rb_pop, rb_front, rb_at, rb_free}
use sdk_dslink_c.Col.Ringbuffer.Inv.{IsValid}
use sdk_dslink_c.Col.Ringbuffer.Free.{rb_free-cleans}
use sdk_dslink_c.Col.Ringbuffer.Trace.{Op, push, pop, front, at, run, queue_run, run-refines}

abbrev fresh : Ringbuffer ℕ
fresh = record {
  size = 3;
  current = 0;
  count = 0;
  data_block = 0 ∷ 0 ∷ 0 ∷ [];
  element_size = 4;
  cleanup_fn = true;
}

-- 8, then 9, round the end of the block
abbrev wrapped : Ringbuffer ℕ
wrapped = record fresh { current = 1; count = 2; data_block = 9 ∷ 7 ∷ 8 ∷ [] }

-- 7, 8, 9, with no room left
abbrev full : Ringbuffer ℕ
full = record fresh { current = 1; count = 3; data_block = 9 ∷ 7 ∷ 8 ∷ [] }

init_zero : rb_init (some full) 0 4 true [] ≡ ok (minus_one, record full { size = 0 })
unfolding rb_init
init_zero = refl

init_null : rb_init {A = ℕ} none 3 4 true [] ≡ fault
unfolding rb_init
init_null = refl

abbrev script : List (Op ℕ)
script = push 1 ∷ push 2 ∷ front ∷ at 1 ∷ pop ∷ pop ∷ pop ∷ pop ∷ []

run-wrapped :
    run (some wrapped) script
    ≡ (pos 0, [], none)
      ∷ (pos 1, 8 ∷ [], none)
      ∷ (pos 0, [], some 9)
      ∷ (pos 0, [], some 1)
      ∷ (pos 0, 9 ∷ [], none)
      ∷ (pos 0, 1 ∷ [], none)
      ∷ (pos 0, 2 ∷ [], none)
      ∷ (minus_one, [], none)
      ∷ []
unfolding run rb_push rb_pop rb_front rb_at
run-wrapped = refl

wrapped-IsValid : IsValid wrapped
wrapped-IsValid = record {
  storage = refl;
  small = omega arith;
  current_in = omega arith;
  count_in = omega arith;
}

full-IsValid : IsValid full
full-IsValid = record {
  storage = refl;
  small = omega arith;
  current_in = omega arith;
  count_in = omega arith;
}

run-refines_example : run (some wrapped) script ≡ queue_run 3 true (8 ∷ 9 ∷ []) script
run-refines_example = run-refines 0 script (some wrapped) wrapped-IsValid

rb_free-cleans_example : rb_free 4 (some full) ≡ some (pos 0, 7 ∷ 8 ∷ 9 ∷ [])
rb_free-cleans_example = rb_free-cleans 0 4 full full-IsValid (omega arith)
