-- ===== src/Examples/Memory.antt =====
-- A memory of the VM: cells under numbers, each written once, in segments of 1000 cells.
use mathlib.Core.Path.{subst}
use snos.Base.{
  ℕ, zero, suc, ◌+◌, ◌-◌, ◌*◌, ◌≡◌, ◌≢◌, refl, ap, Bool, true, false, ◌==◌, leb, Bool-cases, inl,
  inr, if◌then◌else◌, Option, none, some, List, [], ◌∷◌, arith, ==_self,
}
use snos.Execution.Vm.{
  VirtualMachine, MaybeRelocatable, int, relocatable_value, Kept, IsWriteOnce, Kept-refl,
  Kept-trans,
}
use snos.Execution.OsSyscallHandler.StorageReads.{HasRoom}

abbrev pub Cell : Type 0
Cell = MaybeRelocatable ℕ

pub record Memory : Type 0 where
  pub cells : ℕ → Option Cell
  pub segments : ℕ

abbrev same_cell : Cell → Cell → Bool
same_cell (int a) (int b) = a == b
same_cell (relocatable_value a) (relocatable_value b) = a == b
same_cell (int a) (relocatable_value b) = false
same_cell (relocatable_value a) (int b) = false

abbrev integer : Option Cell → Option ℕ
integer none = none
integer (some (int n)) = some n
integer (some (relocatable_value p)) = none

abbrev pointer : Option Cell → Option ℕ
pointer none = none
pointer (some (int n)) = none
pointer (some (relocatable_value p)) = some p

abbrev put : Memory → ℕ → Cell → Memory
put m p x = record m { cells = λ q. if q == p then some x else m.cells q }

abbrev insert_cell : Memory → ℕ → Cell → Option Cell → Option Memory
insert_cell m p x none = some (put m p x)
insert_cell m p x (some y) = if same_cell y x then some m else none

abbrev insert : Memory → ℕ → Cell → Option Memory
insert m p x = insert_cell m p x (m.cells p)

unfoldable pub load_data : Memory → ℕ → List Cell → Option (ℕ × Memory)
load_data m p [] = some (p, m)
load_data m p (x ∷ xs) = elim (insert m p x) [ none ↦ none | some m' ↦ load_data m' (suc p) xs ]

unfoldable pub get_range : Memory → ℕ → ℕ → Option (List ℕ)
get_range m p zero = some []
get_range m p (suc n) = elim (integer (m.cells p)) [
  | none ↦ none
  | some felt ↦ elim (get_range m (suc p) n) [ none ↦ none | some felts ↦ some (felt ∷ felts) ]
]

abbrev add_segment : Memory → ℕ × Memory
add_segment m = (m.segments * 1000, record m { segments = suc m.segments })

abbrev pub memory : VirtualMachine Memory ℕ
memory = record {
  add = λ p n. some (p + n);
  sub = λ p q. if leb q p then some (p - q) else none;
  offset = λ p. p;
  get_integer = λ m p. integer (m.cells p);
  get_relocatable = λ m p. pointer (m.cells p);
  get_integer_range = get_range;
  insert_value = insert;
  load_data = load_data;
  add_memory_segment = add_segment;
  add_temporary_segment = add_segment;
}

put-Kept : (m : Memory) (p : ℕ) (x : Cell) → m.cells p ≡ none → Kept memory m (put m p x)
put-Kept m p x e = record {
  integers = λ q n h. elim (Bool-cases (q == p)) [
    | inl same ↦ absurd (absent_integer q n same h)
    | inr other ↦ rw other h
  ];
  pointers = λ q r h. elim (Bool-cases (q == p)) [
    | inl same ↦ absurd (absent_pointer q r same h)
    | inr other ↦ rw other h
  ];
}
  where
    absent_integer : (q n : ℕ) → (q == p) ≡ true → integer (m.cells q) ≡ some n → ⊥
    absent_integer q n same h = let s : q ≡ p = ground arith in cc (rw (s, e) at h)

    absent_pointer : (q r : ℕ) → (q == p) ≡ true → pointer (m.cells q) ≡ some r → ⊥
    absent_pointer q r same h = let s : q ≡ p = ground arith in cc (rw (s, e) at h)

insert_cell-Kept :
    (m m' : Memory) (p : ℕ) (x : Cell) (o : Option Cell)
    → m.cells p ≡ o
    → insert_cell m p x o ≡ some m'
    → Kept memory m m'
insert_cell-Kept m m' p x none e h =
    let made : put m p x ≡ m' = cc h in rw made at (put-Kept m p x e)
insert_cell-Kept m m' p x (some y) e h = elim (Bool-cases (same_cell y x)) [
  | inl same ↦
      let h' : some m ≡ some m' = rw same at h in
      let kept : m ≡ m' = cc h' in subst (λ (z : Memory). Kept memory m z) kept (Kept-refl memory m)
  | inr other ↦ let h' : none ≡ some m' = rw other at h in absurd (cc h')
]

insert-Kept : (m m' : Memory) (p : ℕ) (x : Cell) → insert m p x ≡ some m' → Kept memory m m'
insert-Kept m m' p x h = insert_cell-Kept m m' p x (m.cells p) refl h

loaded-Kept :
    (m m' : Memory) (p end : ℕ) (x : Cell) (xs : List Cell) (o : Option Memory)
    → insert m p x ≡ o
    → elim o [ none ↦ none | some m1 ↦ load_data m1 (suc p) xs ] ≡ some (end, m')
    → ((m1 : Memory) → load_data m1 (suc p) xs ≡ some (end, m') → Kept memory m1 m')
    → Kept memory m m'
loaded-Kept m m' p end x xs none e h rest = absurd (cc h)
loaded-Kept m m' p end x xs (some m1) e h rest =
    Kept-trans memory (insert-Kept m m1 p x e) (rest m1 h)

load_data-Kept :
    (m m' : Memory) (p end : ℕ) (xs : List Cell)
    → load_data m p xs ≡ some (end, m')
    → Kept memory m m'
unfolding load_data
load_data-Kept m m' p end [] h =
    let same : m ≡ m' = cc h in subst (λ (z : Memory). Kept memory m z) same (Kept-refl memory m)
load_data-Kept m m' p end (x ∷ xs) h =
    loaded-Kept m m' p end x xs (insert m p x) refl h
      (λ m1 h1. load_data-Kept m1 m' (suc p) end xs h1)

get-put : (m : Memory) (p n : ℕ) → integer ((put m p (int n)).cells p) ≡ some n
get-put m p n = rw (==_self p) refl

insert_cell-get :
    (m m' : Memory) (p n : ℕ) (o : Option Cell)
    → m.cells p ≡ o
    → insert_cell m p (int n) o ≡ some m'
    → integer (m'.cells p) ≡ some n
insert_cell-get m m' p n none e h =
    let made : put m p (int n) ≡ m' = cc h in
    subst (λ (z : Memory). integer (z.cells p) ≡ some n) made (get-put m p n)
insert_cell-get m m' p n (some (relocatable_value q)) e h = absurd (cc h)
insert_cell-get m m' p n (some (int k)) e h = elim (Bool-cases (k == n)) [
  | inl same ↦
      let h' : some m ≡ some m' = rw same at h in
      let kept : m ≡ m' = cc h' in
      let value : k ≡ n = ground arith in
      subst (λ (z : Memory). integer (z.cells p) ≡ some n) kept (rw (e, value) refl)
  | inr other ↦ let h' : none ≡ some m' = rw other at h in absurd (cc h')
]

insert_again :
    (m : Memory) (p n k : ℕ) (o : Option Cell)
    → integer o ≡ some n
    → n ≢ k
    → insert_cell m p (int k) o ≡ none
insert_again m p n k none e ne = absurd (cc e)
insert_again m p n k (some (relocatable_value q)) e ne = absurd (cc e)
insert_again m p n k (some (int j)) e ne =
    let same : j ≡ n = cc e in let other : (j == k) ≡ false = ground arith in rw other refl

insert_over :
    (m : Memory) (p q k : ℕ) (o : Option Cell)
    → pointer o ≡ some q
    → insert_cell m p (int k) o ≡ none
insert_over m p q k none e = absurd (cc e)
insert_over m p q k (some (relocatable_value r)) e = refl
insert_over m p q k (some (int j)) e = absurd (cc e)

pub memory-IsWriteOnce : IsWriteOnce memory
memory-IsWriteOnce = record {
  Kept-insert = λ {m} {m'} p x e. insert-Kept m m' p x e;
  Kept-load = λ {m} {m'} p end xs e. load_data-Kept m m' p end xs e;
  Kept-segment = λ m. record { integers = λ p n e. e; pointers = λ p q e. e };
  Kept-temporary = λ m. record { integers = λ p n e. e; pointers = λ p q e. e };
  get-insert = λ {m} {m'} p n e. insert_cell-get m m' p n (m.cells p) refl e;
  insert_again = λ m p n k e ne. insert_again m p n k (m.cells p) e ne;
  insert_over_pointer = λ m p q k e. insert_over m p q k (m.cells p) e;
  add_zero = λ p. ap some (omega arith);
  add_add = λ {p} {q} a b e. let at : p + a ≡ q = cc e in ap some (omega arith);
}

abbrev pub Free : Memory → ℕ → Type 0
Free m p = m.cells p ≡ none

insert_cell-stays :
    (m m' : Memory) (p q : ℕ) (x : Cell) (o : Option Cell)
    → insert_cell m p x o ≡ some m'
    → q ≢ p
    → Free m q
    → Free m' q
insert_cell-stays m m' p q x none h ne free =
    let made : put m p x ≡ m' = cc h in
    let other : (q == p) ≡ false = ground arith in
    let still : Free (put m p x) q = rw other free in subst (λ (z : Memory). Free z q) made still
insert_cell-stays m m' p q x (some y) h ne free = elim (Bool-cases (same_cell y x)) [
  | inl same ↦
      let h' : some m ≡ some m' = rw same at h in
      let kept : m ≡ m' = cc h' in subst (λ (z : Memory). Free z q) kept free
  | inr other ↦ let h' : none ≡ some m' = rw other at h in absurd (cc h')
]

pub memory-HasRoom : HasRoom memory Free
memory-HasRoom = record {
  takes = λ m p x free. (put m p x, rw free refl);
  stays = λ m m' p q x e ne free. insert_cell-stays m m' p q x (m.cells p) e ne free;
}
