-- ===== src/Asan/Merge/Held.antt =====
-- What the merging of records keeps.
use ascend_mssanitizer.Base.{
  ◌&&◌, List, ltb, leb, inl, true, Bool-cases, refl, Bool, inr, ◌+◌, false, ◌==◌, ◌<◌, ◌≡◌, ◌||◌, ℕ,
  ◌∷◌, ◌^◌, [], arith, ◌∙◌, sym, ==_iff, not,
}
use ascend_mssanitizer.Asan.Record.{MemOpType, MemOpRecord}
use ascend_mssanitizer.Asan.Merge.{
  merge_records, is_continuous_addr, is_same_op, merge_from, op_index, joined,
}
use ascend_mssanitizer.Event.{AddressSpace}
use ascend_mssanitizer.Asan.Spaces.{space_index}
use ascend_mssanitizer.Base.Words.{u64}
use ascend_mssanitizer.Asan.Convert.{is_memcpy}

-- No record wraps.
unfoldable pub Fit : List MemOpRecord → Type 0
Fit [] = Unit
Fit (r ∷ rs) = (r.dst_addr + r.mem_size < 2 ^ 64) × Fit rs

-- The record is of the operation, in the space, and its range holds the byte.
abbrev pub touches : MemOpType → AddressSpace → ℕ → MemOpRecord → Bool
touches op s x r =
    (op_index op == op_index r.op_type)
    && (space_index s == space_index r.dst_space)
    && (leb r.dst_addr x && ltb x (r.dst_addr + r.mem_size))

unfoldable pub touched : MemOpType → AddressSpace → ℕ → List MemOpRecord → Bool
touched op s x [] = false
touched op s x (r ∷ rs) = touches op s x r || touched op s x rs

both_parts :
    (o o1 o2 s s1 s2 a n b k x : ℕ) (t : Bool)
    → (o1 == o2) ≡ true
    → (s1 == s2) ≡ true
    → (a + n == b) ≡ true
    → (((o == o1) && (s == s1) && (leb a x && ltb x (a + (n + k)))) || t) ≡ (
        ((o == o1) && (s == s1) && (leb a x && ltb x (a + n)))
        || (((o == o2) && (s == s2) && (leb b x && ltb x (b + k))) || t))
both_parts o o1 o2 s s1 s2 a n b k x t ho hs hb = ground arith

all_hold :
    (a b c d e : Bool) → ((a && b && c) && (d && e)) ≡ true → (a ≡ true) × (b ≡ true) × (d ≡ true)
all_hold a b c d e h = ground arith

merge_from-touched :
    (rs : List MemOpRecord) (l : MemOpRecord) (op : MemOpType) (s : AddressSpace) (x : ℕ)
    → l.dst_addr + l.mem_size < 2 ^ 64
    → Fit rs
    → touched op s x (merge_from l rs) ≡ touched op s x (l ∷ rs)
unfolding merge_from touched Fit
merge_from-touched [] l op s x h f = refl
merge_from-touched (r ∷ rs) l op s x h f =
    elim (Bool-cases (is_same_op l r && is_continuous_addr l r)) [
      | inl e ↦
          let parts =
            all_hold (op_index l.op_type == op_index r.op_type)
              (space_index l.dst_space == space_index r.dst_space)
              (not (is_memcpy l.op_type) || (space_index l.src_space == space_index r.src_space))
              (u64 (l.dst_addr + l.mem_size) == r.dst_addr)
              (not (is_memcpy l.op_type) || (u64 (l.src_addr + l.mem_size) == r.src_addr)) e in
          let end : u64 (l.dst_addr + l.mem_size) ≡ l.dst_addr + l.mem_size = omega arith in
          let next : l.dst_addr + l.mem_size ≡ r.dst_addr = sym end ∙ (==_iff _ _).0 parts.2 in
          let last : r.dst_addr + r.mem_size < 2 ^ 64 = f.0 in
          let size : u64 (l.mem_size + r.mem_size) ≡ l.mem_size + r.mem_size = omega arith in
          let rest = merge_from-touched rs (joined l r) op s x (omega (arith, size)) f.1 in
          let adjoin : (l.dst_addr + l.mem_size == r.dst_addr) ≡ true = (==_iff _ _).1 next in
          let both =
            both_parts (op_index op) (op_index l.op_type) (op_index r.op_type) (space_index s)
              (space_index l.dst_space) (space_index r.dst_space) l.dst_addr l.mem_size r.dst_addr
              r.mem_size x (touched op s x rs) parts.0 parts.1 adjoin in
          rw e (rest ∙ rw size both)
      | inr e ↦ rw (e, merge_from-touched rs r op s x f.0 f.1) refl
    ]

-- For records of ranges that do not wrap, the merged records touch the same bytes with the same operation in
-- the same space as the records before.
pub merge_records-touched :
    (rs : List MemOpRecord) (op : MemOpType) (s : AddressSpace) (x : ℕ)
    → Fit rs
    → touched op s x (merge_records rs) ≡ touched op s x rs
unfolding merge_records touched Fit
merge_records-touched [] op s x f = refl
merge_records-touched (r ∷ rs) op s x f = merge_from-touched rs r op s x f.0 f.1
