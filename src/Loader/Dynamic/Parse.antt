-- ===== src/Loader/Dynamic/Parse.antt =====
-- What shadps4_parse_dynamic reads: an entry list that ends at DT_NULL, the last entry of a tag
-- deciding.
use qemu_dll_shadps.Base.{
  ◌⊎◌, ◌||◌, ℕ, zero, suc, ◌+◌, ◌*◌, ◌%◌, ◌≤◌, ◌≡◌, refl, ap, subst, ◌∙◌, ◌≢◌, inl, inr, Bool, true,
  false, not, ◌&&◌, some, List, [], ◌∷◌, ◌==◌, ==_iff, Bool-cases, if◌then◌else◌, length, le_at,
  le_at_in, ok, err, arith,
}
use qemu_dll_shadps.Loader.Types.{Error, DynamicInfo, zero_dynamic}
use qemu_dll_shadps.Loader.Dynamic.{
  dt_null, dt_rela, Field, tag_of, set_entry, rounds, parse_loop, parse_dynamic, entry_sizes_valid,
}

pub field : Field → DynamicInfo → ℕ
field Field.strtab info = info.strtab
field Field.strsz info = info.strsz
field Field.symtab info = info.symtab
field Field.syment info = info.syment
field Field.symtabsz info = info.symtabsz
field Field.rela info = info.rela
field Field.relasz info = info.relasz
field Field.relaent info = info.relaent
field Field.jmprel info = info.jmprel
field Field.pltrelsz info = info.pltrelsz
field Field.pltrel info = info.pltrel
field Field.init info = info.init
field Field.fini info = info.fini

field-set_entry :
    (f : Field) (info : DynamicInfo) (tag value : ℕ)
    → field f (set_entry info tag value) ≡ (if tag == tag_of f then value else field f info)
unfolding field set_entry
field-set_entry Field.strtab info tag value = ground arith
field-set_entry _ info tag value = ground arith

-- The entries before DT_NULL, in file order.
pub data Entries (dynamic : List ℕ) : ℕ → List (ℕ × ℕ) → Type 0 where
  null : {offset : ℕ} → le_at 8 dynamic offset ≡ some dt_null → Entries dynamic offset []
  entry :
      {offset : ℕ} {rest : List (ℕ × ℕ)} (tag value : ℕ)
      → tag ≢ dt_null
      → le_at 8 dynamic offset ≡ some tag
      → le_at 8 dynamic (offset + 8) ≡ some value
      → Entries dynamic (offset + 16) rest
      → Entries dynamic offset ((tag, value) ∷ rest)

-- The value of the last entry with a tag, or `default`.
pub last_value : ℕ → ℕ → List (ℕ × ℕ) → ℕ
last_value tag default [] = default
last_value tag default ((t, v) ∷ rest) = last_value tag (if t == tag then v else default) rest

-- Is there an entry with the tag?
pub has_tag : ℕ → Bool → List (ℕ × ℕ) → Bool
has_tag tag found [] = found
has_tag tag found ((t, v) ∷ rest) = has_tag tag (if t == tag then true else found) rest

-- What the loop's result holds of the entries that it went through.
pub record Summary (start info : DynamicInfo) (entries : List (ℕ × ℕ)) : Type 0 where
  pub values : (f : Field) → field f info ≡ last_value (tag_of f) (field f start) entries
  pub init : info.init_present ≡ has_tag (tag_of Field.init) start.init_present entries
  pub fini : info.fini_present ≡ has_tag (tag_of Field.fini) start.fini_present entries

init_present-set_entry :
    (info : DynamicInfo) (tag value : ℕ)
    → (set_entry info tag value).init_present
      ≡ (if tag == tag_of Field.init then true else info.init_present)
unfolding set_entry
init_present-set_entry info tag value = ground arith

fini_present-set_entry :
    (info : DynamicInfo) (tag value : ℕ)
    → (set_entry info tag value).fini_present
      ≡ (if tag == tag_of Field.fini then true else info.fini_present)
unfolding set_entry
fini_present-set_entry info tag value = ground arith

Summary-entry :
    (start info : DynamicInfo) (tag value : ℕ) (rest : List (ℕ × ℕ))
    → Summary (set_entry start tag value) info rest
    → Summary start info ((tag, value) ∷ rest)
unfolding last_value has_tag
Summary-entry start info tag value rest s = record {
  values =
      λ f. s.values f ∙ ap (λ d. last_value (tag_of f) d rest) (field-set_entry f start tag value);
  init =
      s.init
      ∙ ap (λ d. has_tag (tag_of Field.init) d rest) (init_present-set_entry start tag value);
  fini =
      s.fini
      ∙ ap (λ d. has_tag (tag_of Field.fini) d rest) (fini_present-set_entry start tag value);
}

-- One round at an entry inside the table.
parse_loop_at :
    (n : ℕ) (dynamic : List ℕ) (offset : ℕ) (info : DynamicInfo) (tag value : ℕ)
    → le_at 8 dynamic offset ≡ some tag
    → le_at 8 dynamic (offset + 8) ≡ some value
    → parse_loop (suc n) dynamic offset info ≡ (
        if tag == dt_null
        then ok (info, true)
        else parse_loop n dynamic (offset + 16) (set_entry info tag value))
unfolding parse_loop
parse_loop_at n dynamic offset info tag value p q = rw (p, q, parse_loop)

-- Inside the table the loop always yields a result, and one that stops at DT_NULL sums up the
-- entries before it.
parse_loop_lem :
    (n : ℕ) (dynamic : List ℕ) (offset : ℕ) (start : DynamicInfo)
    → offset + 16 * n ≤ length dynamic
    → (info : DynamicInfo) × (terminated : Bool) × (parse_loop n dynamic offset start
        ≡ ok (info, terminated))
      × (terminated ≡ true
          → (entries : List (ℕ × ℕ)) × Entries dynamic offset entries × Summary start info entries)
unfolding last_value has_tag
parse_loop_lem zero dynamic offset start h = (start, false, parse_loop_end, λ e. cc)
  where
    parse_loop_end : parse_loop 0 dynamic offset start ≡ ok (start, false)
    parse_loop_end = unfold parse_loop in refl
parse_loop_lem (suc n) dynamic offset start h =
    let (tag, p) = le_at_in 8 dynamic offset (omega arith) in
    let (value, q) = le_at_in 8 dynamic (offset + 8) (omega arith) in
    let at = parse_loop_at n dynamic offset start tag value p q in
    elim (Bool-cases (tag == dt_null)) [
      | inl stop ↦
          let z : tag ≡ dt_null = (==_iff _ _).0 stop in
          (
            start,
            true,
            at ∙ rw stop,
            λ _. (
              [],
              Entries.null (p ∙ ap some z),
              record { values = λ f. refl; init = refl; fini = refl },
            ),
          )
      | inr more ↦
          let (info, t, e, ends) =
            parse_loop_lem n dynamic (offset + 16) (set_entry start tag value) (omega arith) in
          (
            info,
            t,
            at ∙ rw more e,
            λ yes'.
                let (rest, es, s) = ends yes' in
                (
                  (tag, value) ∷ rest,
                  Entries.entry tag value (λ z. ground arith) p q es,
                  Summary-entry start info tag value rest s,
                ),
          )
    ]

-- shadps4_parse_dynamic never reads outside the table.
pub parse_dynamic-ne-fault : (dynamic : List ℕ) → parse_dynamic dynamic ≢ err Error.fault
unfolding parse_dynamic
parse_dynamic-ne-fault dynamic e =
    elim (Bool-cases (not (length dynamic == 0) && length dynamic % 16 == 0)) [
      | inr bad ↦ cc (rw bad at e)
      | inl good ↦
          let (info, t, p, _) =
            parse_loop_lem (rounds (length dynamic) 16) dynamic 0 zero_dynamic (ground arith) in
          ground arith
    ]

-- What a success says.
pub record Parsed (dynamic : List ℕ) (info : DynamicInfo) : Type 0 where
  pub entries : List (ℕ × ℕ)
  pub read : Entries dynamic 0 entries
  pub summary : Summary zero_dynamic info entries
  pub symbol_size : (info.symtabsz ≡ 0) ⊎ (info.syment ≡ 24)
  pub rela_size : (info.relasz ≡ 0) ⊎ (info.relaent ≡ 24)
  pub plt_kind : (info.pltrelsz ≡ 0) ⊎ (info.pltrel ≡ dt_rela)
  pub whole : length dynamic % 16 ≡ 0

unless_zero : {a b c : ℕ} → (a == 0 || b == c) ≡ true → (a ≡ 0) ⊎ (b ≡ c)
unless_zero {a} {b} {c} h = elim (Bool-cases (a == 0)) [
  | inl z ↦ inl (ground arith)
  | inr n ↦ inr (ground arith)
]

-- Where shadps4_parse_dynamic succeeds, the table is whole entries up to a DT_NULL, each field
-- holds the value of the last entry before it that has the field's tag (or 0 without one), init and
-- fini are present exactly if an entry says so, and the entry sizes are those of Elf64_Sym and
-- Elf64_Rela for every table that is not empty.
pub parse_dynamic_lem :
    (dynamic : List ℕ) {info : DynamicInfo} → parse_dynamic dynamic ≡ ok info → Parsed dynamic info
unfolding parse_dynamic
parse_dynamic_lem dynamic {info} e =
    elim (Bool-cases (not (length dynamic == 0) && length dynamic % 16 == 0)) [
      | inr bad ↦ cc (rw bad at e)
      | inl good ↦
          let (info', t, p, ends) =
            parse_loop_lem (rounds (length dynamic) 16) dynamic 0 zero_dynamic (ground arith) in
          let t1 : t ≡ true = ground arith in
          let same : info' ≡ info = ground arith in
          let sizes : entry_sizes_valid info ≡ true = ground arith in
          let (entries, read, summary) = ends t1 in
          record {
            entries = entries;
            read = read;
            summary = subst (λ i. Summary zero_dynamic i entries) same summary;
            symbol_size = unless_zero (ground arith);
            rela_size = unless_zero (ground arith);
            plt_kind = unless_zero (ground arith);
            whole = ground arith;
          }
    ]
