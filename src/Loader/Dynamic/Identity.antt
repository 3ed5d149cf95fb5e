-- ===== src/Loader/Dynamic/Identity.antt =====
-- shadps4_dynamic_identity looks ids up by their encoded text; this is a lookup by number.
use qemu_dll_shadps.Base.{
  ℕ, zero, suc, ◌+◌, ◌*◌, ◌/◌, ◌%◌, ◌^◌, ◌≤◌, ◌<◌, ◌≡◌, refl, ◌∙◌, ◌≢◌, Bool, true, false, not,
  ◌&&◌, ◌||◌, Option, none, some, List, [], ◌∷◌, ◌==◌, ==_iff, if◌then◌else◌, length, le_at, leb,
  drop, drop-nil, or_err, ◌>>=◌, Option-cases, c_string, inl, inr, Bool-cases, le_at_bound,
  le_at_in, str_eq, Result, ok, err, arith,
}
use qemu_dll_shadps.Loader.Types.{Error}
use qemu_dll_shadps.Loader.EncodeId.{encode_id, str_eq-encode_id}
use qemu_dll_shadps.Loader.Dynamic.{
  string_at, dt_null, import_tag, export_tag, identity_entry, identity_loop, dynamic_identity,
  rounds,
}
use qemu_dll_shadps.Loader.Dynamic.Parse.{Entries}

-- Is the entry an import or export of the id, of the kind asked for?
pub is_identity : Bool → ℕ → ℕ → ℕ → Bool
is_identity library id tag value =
    (tag == import_tag library || tag == export_tag library) && (value / 2 ^ 48 % 2 ^ 16 == id)

-- The first such entry's value.
pub find_identity : Bool → ℕ → List (ℕ × ℕ) → Option ℕ
find_identity library id [] = none
find_identity library id ((tag, value) ∷ rest) =
    if is_identity library id tag value then some value else find_identity library id rest

-- What a found value yields.
pub identity_of : List ℕ → Bool → Option ℕ → Result Error (Option (List ℕ × ℕ))
identity_of strings library none = ok none
identity_of strings library (some value) = elim (c_string (drop (value % 2 ^ 32) strings)) [
  | none ↦ err Error.identity_name
  | some name ↦ ok (some (name, if library then value / 2 ^ 32 % 2 ^ 16 else 0))
]

drop_past : (n : ℕ) (bs : List ℕ) → length bs ≤ n → drop n bs ≡ []
drop_past n [] h = drop-nil n
drop_past zero (b ∷ bs) h = absurd (omega arith)
drop_past (suc n) (b ∷ bs) h = drop_past n bs (omega arith)

abbrev named : List ℕ → ℕ → Result Error (Option (List ℕ × ℕ))
named name version = ok (some (name, version))

entry_at :
    (strings : List ℕ) (offset version : ℕ)
    → (if leb (length strings) offset then err Error.identity_name else do
      found ← string_at strings offset
      name ← or_err found Error.identity_name
      named name version)
      ≡ elim (c_string (drop offset strings)) [
        | none ↦ err Error.identity_name
        | some name ↦ named name version
      ]
unfolding string_at c_string
entry_at strings offset version = elim (Bool-cases (leb (length strings) offset)) [
  | inl past ↦
      let nothing : c_string (drop offset strings) ≡ none =
        rw (drop_past offset strings (ground arith), c_string) refl in
      rw (past, nothing) refl
  | inr inside ↦
      let fits : leb offset (length strings) ≡ true = ground arith in
      elim (Option-cases (c_string (drop offset strings))) [
        | inl e ↦ rw (inside, fits, e) refl
        | inr (name, e) ↦ rw (inside, fits, e) refl
      ]
]

identity_entry_lem :
    (strings : List ℕ) (value : ℕ) (library : Bool)
    → identity_entry strings value library ≡ identity_of strings library (some value)
unfolding identity_entry identity_of
identity_entry_lem strings value library =
    entry_at strings (value % 2 ^ 32) (if library then value / 2 ^ 32 % 2 ^ 16 else 0)

identity_loop_at :
    (n : ℕ) (dynamic : List ℕ) (offset : ℕ) (strings encoded_id : List ℕ) (library : Bool)
    (tag value : ℕ)
    → le_at 8 dynamic offset ≡ some tag
    → le_at 8 dynamic (offset + 8) ≡ some value
    → identity_loop (suc n) dynamic offset strings encoded_id library ≡ (
        let rest = identity_loop n dynamic (offset + 16) strings encoded_id library in
        if tag == dt_null
        then ok none
        else if not (tag == import_tag library) && not (tag == export_tag library)
        then rest
        else if not (str_eq (encode_id (value / 2 ^ 48 % 2 ^ 16)) encoded_id)
        then rest
        else identity_entry strings value library)
unfolding identity_loop
identity_loop_at n dynamic offset strings encoded_id library tag value p q =
    rw (p, q, identity_loop)

identity_split :
    (null imported exported same : Bool) (found : Option ℕ) (strings : List ℕ) (value : ℕ)
    (library : Bool)
    → null ≢ true
    → (if null
        then ok none
        else if not imported && not exported
        then identity_of strings library found
        else if not same
        then identity_of strings library found
        else identity_of strings library (some value))
      ≡ identity_of strings library (if (imported || exported) && same then some value else found)
unfolding identity_of
identity_split true i e s found strings value library ne = absurd (ne refl)
identity_split false i e s found strings value library ne = ground arith

identity_loop_lem :
    (n : ℕ) (dynamic : List ℕ) (offset : ℕ) (strings : List ℕ) (id : ℕ) (library : Bool)
    (entries : List (ℕ × ℕ))
    → id < 2 ^ 16
    → offset + 16 * n ≡ length dynamic
    → Entries dynamic offset entries
    → identity_loop n dynamic offset strings (encode_id id) library
      ≡ identity_of strings library (find_identity library id entries)
unfolding find_identity identity_of is_identity
identity_loop_lem zero dynamic offset strings id library _ small all (Entries.null p) =
    absurd (omega (arith, le_at_bound 8 dynamic offset (omega arith) p))
identity_loop_lem zero dynamic offset strings id library _ small all (Entries.entry t v ne p q es) =
    absurd (omega (arith, le_at_bound 8 dynamic offset (omega arith) p))
identity_loop_lem (suc n) dynamic offset strings id library _ small all (Entries.null p) =
    let (value, q) = le_at_in 8 dynamic (offset + 8) (omega arith) in
    identity_loop_at n dynamic offset strings (encode_id id) library dt_null value p q
identity_loop_lem (suc n) dynamic offset strings id library _ small all
      (Entries.entry {rest = rest} tag value ne p q es) =
    identity_loop_at n dynamic offset strings (encode_id id) library tag value p q
    ∙ rw
        (
          identity_loop_lem n dynamic (offset + 16) strings id library rest small (omega arith) es,
          identity_entry_lem strings value library,
          str_eq-encode_id (value / 2 ^ 48 % 2 ^ 16) id (omega arith) small,
        )
        (identity_split (tag == dt_null) (tag == import_tag library) (tag == export_tag library)
          (value / 2 ^ 48 % 2 ^ 16 == id) (find_identity library id rest) strings value library
          (λ z. ne ((==_iff _ _).0 z)))

-- In a table of whole entries that a DT_NULL ends, looking a library or module up by the encoded text of a 16-bit id finds what a search by number
-- finds: the first entry before DT_NULL that imports or exports that id. Its name and version are
-- returned, a name outside the string table is an error, and nothing is returned without one.
pub dynamic_identity_lem :
    (dynamic strings : List ℕ) (id : ℕ) (library : Bool) (entries : List (ℕ × ℕ))
    → id < 2 ^ 16
    → length dynamic % 16 ≡ 0
    → Entries dynamic 0 entries
    → dynamic_identity dynamic strings (encode_id id) library
      ≡ identity_of strings library (find_identity library id entries)
unfolding dynamic_identity
dynamic_identity_lem dynamic strings id library entries small whole es =
    identity_loop_lem (rounds (length dynamic) 16) dynamic 0 strings id library entries small
      (omega arith) es

identity_entry-ne-fault :
    (strings : List ℕ) (value : ℕ) (library : Bool)
    → identity_entry strings value library ≢ err Error.fault
unfolding identity_entry string_at
identity_entry-ne-fault strings value library e = ground arith

identity_loop-ne-fault :
    (n : ℕ) (dynamic : List ℕ) (offset : ℕ) (strings encoded_id : List ℕ) (library : Bool)
    → offset + 16 * n ≤ length dynamic
    → identity_loop n dynamic offset strings encoded_id library ≢ err Error.fault
identity_loop-ne-fault zero dynamic offset strings encoded_id library h e =
    unfold identity_loop in cc e
identity_loop-ne-fault (suc n) dynamic offset strings encoded_id library h e =
    let (tag, p) = le_at_in 8 dynamic offset (omega arith) in
    let (value, q) = le_at_in 8 dynamic (offset + 8) (omega arith) in
    ground (
      arith,
      identity_loop_at n dynamic offset strings encoded_id library tag value p q,
      identity_loop-ne-fault n dynamic (offset + 16) strings encoded_id library,
      identity_entry-ne-fault strings value library,
    )

-- Over a table of whole entries no lookup reads outside it, whatever the id's text.
pub dynamic_identity-ne-fault :
    (dynamic strings encoded_id : List ℕ) (library : Bool)
    → length dynamic % 16 ≡ 0
    → dynamic_identity dynamic strings encoded_id library ≢ err Error.fault
unfolding dynamic_identity
dynamic_identity-ne-fault dynamic strings encoded_id library whole =
    identity_loop-ne-fault (rounds (length dynamic) 16) dynamic 0 strings encoded_id library
      (omega arith)
