-- ===== src/Hints/FindElement.antt =====
-- crates/starknet-os/src/hints/find_element.rs. The VM's memory is a parameter, read at an offset of
-- the array's segment; felts are numbers, and offsets are of the machine's 64 bits.
pub mod Search
use snos.Base.{
  ℕ, zero, suc, ◌+◌, ◌*◌, ◌%◌, Bool, true, false, Option, none, some, ◌==◌, ltb, leb, if◌then◌else◌,
}
use snos.Base.Outcome.{Outcome, ok, err, panicked, ◌>>=◌}
use snos.CommitmentTree.Bytes.{u64_bound}

pub data HintError : Type 0 where
  not_a_usize : ℕ → HintError
  elm_size_is_zero : HintError
  too_many_elements : (max_size n_elms : ℕ) → HintError
  address_overflow : HintError
  not_an_integer : ℕ → HintError

-- `felt_to_usize`
abbrev felt_to_usize : ℕ → Outcome HintError ℕ
felt_to_usize felt = if ltb felt u64_bound then ok felt else err (not_a_usize felt)

-- `Relocatable + usize`
abbrev offset_add : ℕ → ℕ → Outcome HintError ℕ
offset_add offset n = if ltb (offset + n) u64_bound then ok (offset + n) else err address_overflow

abbrev pub check_size : Option ℕ → ℕ → Outcome HintError ℕ
check_size none n_elms = ok n_elms
check_size (some max_size) n_elms =
    if ltb max_size n_elms then err (too_many_elements max_size n_elms) else ok n_elms

module _ (get_integer : ℕ → Outcome HintError ℕ) where
  -- `for i in 0..n_elms`: `left` rounds are left, and `i` is the index.
  unfoldable pub search_from :
      (array_ptr elm_size n_elms key left i : ℕ) → Outcome HintError (ℕ × Bool)
  search_from array_ptr elm_size n_elms key zero i = ok (n_elms, false)
  search_from array_ptr elm_size n_elms key (suc left) i =
      let rest = search_from array_ptr elm_size n_elms key left (i + 1) in
      offset_add array_ptr (elm_size * i % u64_bound) >>= λ address.
      get_integer address >>= λ value. if leb key value then ok (i, value == key) else rest

  -- The index and the flag that the hint writes to `ids.index` and `ids.exists`.
  unfoldable pub search_sorted_optimistic :
      (array_ptr elm_size n_elms key : ℕ) → Option ℕ → Outcome HintError (ℕ × Bool)
  search_sorted_optimistic array_ptr elm_size n_elms key find_element_max_size =
      felt_to_usize elm_size >>= λ elm_size.
      if elm_size == 0
      then err elm_size_is_zero
      else felt_to_usize n_elms >>= λ n_elms. check_size find_element_max_size n_elms >>= λ n_elms.
          search_from array_ptr elm_size n_elms key n_elms 0
