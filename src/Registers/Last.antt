-- ===== src/Registers/Last.antt =====
-- The report names the registers whose last written value is not the default.
use ascend_mssanitizer.Event.{
  RegisterType, EventInfo, sanitizer_control_event, kernel_finish, SanEvent, register_event,
}
use ascend_mssanitizer.Base.{
  not, List, refl, ◌≡◌, ◌==◌, ◌∷◌, inl, false, Bool-cases, Bool, [], ℕ, inr, ◌||◌, if◌then◌else◌,
  ◌&&◌, arith, ◌∙◌, ap, true, ◌+◌, ltb, zero, suc, ==_iff, sym, leb, ◌++◌,
}
use ascend_mssanitizer.Registers.{
  RegisterDispInfo, kept_val, is_checked, write_register, register_index, reg_dft_val, RegTable,
  do_register_info, init_registers, reg_info_tbl, report_cores, is_changed, report_core,
  max_core_num, do_registers,
}

-- The value of a register after some events: that of the last write, or the one before all of them.
unfoldable pub value_of : EventInfo → ℕ → RegisterType → ℕ → ℕ
unfolding kept_val
value_of (register_event r) i t v =
    if i == r.reg_idx && register_index t == register_index r.reg_type then kept_val r else v
value_of _ i t v = v

unfoldable pub last_value : List SanEvent → ℕ → RegisterType → ℕ → ℕ
unfolding value_of
last_value [] i t v = v
last_value (e ∷ es) i t v = last_value es i t (value_of e.info i t v)

-- A report has an entry for a register of a row.
unfoldable pub is_listed : ℕ → RegisterType → List RegisterDispInfo → Bool
is_listed i t [] = false
is_listed i t (r ∷ rs) =
    (r.row == i && register_index r.reg_type == register_index t) || is_listed i t rs

-- The kernel ends with a register that is checked and does not hold its default.
abbrev pub is_left : List SanEvent → ℕ → RegisterType → Bool
is_left es i t = not (last_value es i t (reg_dft_val t) == reg_dft_val t) && is_checked t

info-value :
    (x : EventInfo) (e : SanEvent) (table : RegTable) (i : ℕ) (t : RegisterType)
    → ((do_register_info x e table).0 i t).reg_val ≡ value_of x i t (table i t).reg_val
unfolding do_register_info value_of write_register
info-value (register_event r) e table i t =
    elim (Bool-cases (i == r.reg_idx && register_index t == register_index r.reg_type)) [
      | inl h ↦ rw h refl
      | inr h ↦ rw h refl
    ]
info-value (sanitizer_control_event kernel_finish) e table i t = refl
info-value _ e table i t = refl

do_registers-value :
    (es : List SanEvent) (table : RegTable) (i : ℕ) (t : RegisterType)
    → ((do_registers es table).0 i t).reg_val ≡ last_value es i t (table i t).reg_val
unfolding do_registers last_value
do_registers-value [] table i t = refl
do_registers-value (e ∷ es) table i t =
    do_registers-value es (do_register_info e.info e table).0 i t
    ∙ ap (last_value es i t) (info-value e.info e table i t)

or_regroup : (a b c : Bool) → (a || (b || c)) ≡ ((a || b) || c)
or_regroup a b c = ground arith

is_listed-append :
    (i : ℕ) (t : RegisterType) (xs ys : List RegisterDispInfo)
    → is_listed i t (xs ++ ys) ≡ (is_listed i t xs || is_listed i t ys)
unfolding is_listed
is_listed-append i t [] ys = refl
is_listed-append i t (x ∷ xs) ys =
    ap (λ b. ((x.row == i && register_index x.reg_type == register_index t) || b))
      (is_listed-append i t xs ys)
    ∙ or_regroup (x.row == i && register_index x.reg_type == register_index t) (is_listed i t xs)
        (is_listed i t ys)

abbrev is_member : RegisterType → List RegisterType → Bool
is_member t [] = false
is_member t (x ∷ xs) = register_index x == register_index t || is_member t xs

register_index_inj : (a b : RegisterType) → register_index a ≡ register_index b → a ≡ b
register_index_inj a b h = ground arith

both : (a b : Bool) → ((a && true) || (a && (true && b))) ≡ (a && (true && (true || b)))
both a b = ground arith

neither : (a b : Bool) → ((a && false) || (a && b)) ≡ (a && b)
neither a b = ground arith

-- One more register in front of the list, reported or not.
one_more :
    (here e c m r : Bool)
    → (e ≡ true → c ≡ true)
    → r ≡ (here && (c && m))
    → ((here && e) || r) ≡ (here && (c && (e || m)))
one_more here e c m r h k = elim (Bool-cases e) [
  | inl q ↦ rw (q, k, h q) (both here m)
  | inr q ↦ rw (q, k) (neither here (c && m))
]

no_more :
    (here e c m r : Bool)
    → (e ≡ true → c ≡ false)
    → r ≡ (here && (c && m))
    → r ≡ (here && (c && (e || m)))
no_more here e c m r h k = elim (Bool-cases e) [
  | inl q ↦ rw (q, k, h q) refl
  | inr q ↦ rw (q, k) refl
]

report_core-listed :
    (table : RegTable) (i j : ℕ) (t : RegisterType) (ts : List RegisterType)
    → is_listed j t (report_core table i ts) ≡ (i == j && (is_changed table i t && is_member t ts))
unfolding report_core is_listed
report_core-listed table i j t [] = ground arith
report_core-listed table i j t (x ∷ ts) = elim (Bool-cases (is_changed table i x)) [
  | inl c ↦ rw c (
      one_more (i == j) (register_index x == register_index t) (is_changed table i t)
        (is_member t ts) _
        (λ e. ap (is_changed table i) (sym (register_index_inj x t ((==_iff _ _).0 e))) ∙ c)
        (report_core-listed table i j t ts))
  | inr c ↦ rw c (
      no_more (i == j) (register_index x == register_index t) (is_changed table i t)
        (is_member t ts) _
        (λ e. ap (is_changed table i) (sym (register_index_inj x t ((==_iff _ _).0 e))) ∙ c)
        (report_core-listed table i j t ts))
]

in_table : (t : RegisterType) → is_member t reg_info_tbl ≡ true
in_table t = ground arith

row_step :
    (i j n : ℕ) (ci cj r : Bool)
    → (i ≡ j → ci ≡ cj)
    → r ≡ ((leb (i + 1) j && ltb j (i + 1 + n)) && cj)
    → ((i == j && (ci && true)) || r) ≡ ((leb i j && ltb j (i + suc n)) && cj)
row_step i j n ci cj r h k = elim (Bool-cases (i == j)) [
  | inl e ↦ rw (e, k, h ((==_iff i j).0 e)) (ground arith)
  | inr e ↦ rw (e, k) (ground arith)
]

none_listed : (i j : ℕ) (t : RegisterType) (c : Bool) → false ≡ ((leb i j && ltb j (i + 0)) && c)
none_listed i j t c = ground arith

low_row :
    (i : ℕ) (b : Bool) → ((leb 0 i && ltb i (0 + max_core_num)) && b) ≡ (ltb i max_core_num && b)
low_row i b = ground arith

report_cores-listed :
    (n i j : ℕ) (t : RegisterType) (table : RegTable)
    → is_listed j t (report_cores n i table) ≡ ((leb i j && ltb j (i + n)) && is_changed table j t)
unfolding report_cores is_listed
report_cores-listed zero i j t table = none_listed i j t (is_changed table j t)
report_cores-listed (suc n) i j t table =
    is_listed-append j t (report_core table i reg_info_tbl) (report_cores n (i + 1) table)
    ∙ ap (λ b. (b || is_listed j t (report_cores n (i + 1) table)))
        (report_core-listed table i j t reg_info_tbl
          ∙ ap (λ b. (i == j && (is_changed table i t && b))) (in_table t))
    ∙ row_step i j n (is_changed table i t) (is_changed table j t) _
        (λ e. ap (λ k. is_changed table k t) e) (report_cores-listed n (i + 1) j t table)

from_value :
    (es : List SanEvent) (i : ℕ) (t : RegisterType)
    → ((do_registers es init_registers).0 i t).reg_val
      ≡ last_value es i t (init_registers i t).reg_val
    → ((leb 0 i && ltb i (0 + max_core_num)) && is_changed (do_registers es init_registers).0 i t)
      ≡ (ltb i max_core_num && is_left es i t)
unfolding is_changed init_registers
from_value es i t h = rw h (low_row i (is_left es i t))

-- When the kernel ends after any events, the report has an entry for a register of a core exactly when the
-- core is one of the 75, the register is one that is checked, and its last written value, of the control
-- register bit 56, or its default where nothing wrote it, is not its default.
pub do_registers-Reported :
    (es : List SanEvent) (e : SanEvent) (i : ℕ) (t : RegisterType)
    → is_listed i t
        (do_register_info
          (sanitizer_control_event kernel_finish)
          e
          (do_registers es init_registers).0).1
      ≡ (ltb i max_core_num && is_left es i t)
unfolding do_register_info
do_registers-Reported es e i t =
    report_cores-listed max_core_num 0 i t (do_registers es init_registers).0
    ∙ from_value es i t (do_registers-value es init_registers i t)
