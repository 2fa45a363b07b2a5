-- ===== src/Examples/Values.antt =====
-- A stand-in for `serde_json::Value`: a value is its bytes, and an object lists, for each field, the two
-- lengths, the key and the value.
use in_visibool.Prelude.{
  ℕ, if◌then◌else◌, some_inj, length, take, drop, length-append, take-append, drop-append, Str,
  codes, str_eq, zero, suc, ◌+◌, ◌≡◌, refl, sym, ap, ◌∙◌, subst, Bool, true, false, Option, none,
  some, [], ◌∷◌, ◌++◌, arith,
}
use in_visibool.Prelude.Maps.{HashMap, lookup}
use in_visibool.Storage.{Result, ok, err}
use in_visibool.Control.{JsonValues, JsonValuesLaws}

abbrev pub fields_bytes : HashMap Str → Str
fields_bytes [] = []
fields_bytes ((k, v) ∷ fs) = length k ∷ length v ∷ (k ++ (v ++ fields_bytes fs))

abbrev pub find_field : ℕ → Str → Str → Option Str
find_field (suc fuel) k (n ∷ m ∷ rest) =
    let later = find_field fuel k (drop m (drop n rest)) in
    if str_eq (take n rest) k then some (take m (drop n rest)) else later
find_field _ k _ = none

enough : (fs : HashMap Str) → (d : ℕ) × (length (fields_bytes fs) ≡ length fs + d)
enough [] = (0, omega arith)
enough ((k, v) ∷ fs) =
    let (d, e) = enough fs in
    let size = length-append k (v ++ fields_bytes fs) in
    let size' = length-append v (fields_bytes fs) in (length k + length v + 1 + d, omega arith)

find_field-fields_bytes :
    (fs : HashMap Str) (k : Str) (d : ℕ)
    → find_field (length fs + d) k (fields_bytes fs) ≡ lookup k fs
unfolding lookup
find_field-fields_bytes [] k d = nothing (0 + d)
  where
    nothing : (n : ℕ) → find_field n k [] ≡ none
    nothing zero = refl
    nothing (suc n) = refl
find_field-fields_bytes ((j, v) ∷ fs) k d =
    let key = take-append j (v ++ fields_bytes fs) in
    let rest = drop-append j (v ++ fields_bytes fs) in
    let value = take-append v (fields_bytes fs) in
    let after = drop-append v (fields_bytes fs) in
    ap (λ n. find_field n k (fields_bytes ((j, v) ∷ fs))) more
    ∙ rw (key, rest, value, after, find_field-fields_bytes fs k d) refl
  where
    more : suc (length fs) + d ≡ suc (length fs + d)
    more = omega arith

abbrev pub as_flag : Str → Option Bool
as_flag (zero ∷ []) = some false
as_flag (suc zero ∷ []) = some true
as_flag _ = none

abbrev pub flag : Bool → Str
flag true = 1 ∷ []
flag false = 0 ∷ []

abbrev pub raw_of : Option Str → Result Str Str
raw_of none = err (codes "no field cmd")
raw_of (some cmd) = ok cmd

abbrev pub toy_values : JsonValues
toy_values = record {
  Value = Str;
  null = [];
  bool = flag;
  number = λ n. n ∷ [];
  string = λ s. s;
  array = λ vs. [];
  object = fields_bytes;
  get = λ v k. find_field (length v) k v;
  as_bool = as_flag;
  as_str = λ v. some v;
  to_vec = λ v. some v;
  from_slice = λ s. ok s;
  raw_cmd = λ s. raw_of (find_field (length s) (codes "cmd") s);
}

pub toy_get :
    (fs : HashMap Str) (k : Str)
    → find_field (length (fields_bytes fs)) k (fields_bytes fs) ≡ lookup k fs
toy_get fs k =
    let (d, e) = enough fs in
    ap (λ n. find_field n k (fields_bytes fs)) e ∙ find_field-fields_bytes fs k d

pub toy_flag : (b : Bool) → as_flag (flag b) ≡ some b
toy_flag true = refl
toy_flag false = refl

pub toy_raw :
    (cmd s : Str)
    → some (fields_bytes ((codes "cmd", cmd) ∷ [])) ≡ some s
    → raw_of (find_field (length s) (codes "cmd") s) ≡ ok cmd
unfolding lookup
toy_raw cmd s h =
    subst (λ t. raw_of (find_field (length t) (codes "cmd") t) ≡ ok cmd) (some_inj h)
      (ap raw_of (toy_get ((codes "cmd", cmd) ∷ []) (codes "cmd")))

abbrev pub toy_values_laws : JsonValuesLaws toy_values
toy_values_laws = record {
  IsExact = λ n v. Unit;
  bool-IsExact = λ n b. tt;
  string-IsExact = λ n s. tt;
  object-IsExact = λ n fields h. tt;
  get-object = toy_get;
  as_bool-bool = toy_flag;
  as_str-string = λ s. refl;
  to_vec_total = λ v. (v, refl);
  from_slice-to_vec = λ v s h e. ap ok (sym (some_inj e));
  raw_cmd-to_vec = toy_raw;
}
