-- ===== src/Board/Pattern.antt =====
-- board/pattern.rs, and the registry of backplane.rs. A string is the list of its characters; the
-- lower case of Unicode and the crate regex are a parameter.
pub mod Selection
mod Tests
use nano_mujina.Prelude.{
  ℕ, ◌+◌, ◌/◌, ◌^◌, Bool, true, false, ◌&&◌, ◌||◌, Option, none, some, List, [], ◌∷◌, leb, ◌==◌,
  if◌then◌else◌,
}
use nano_mujina.Prelude.Bytes.{u8}

-- `str::to_lowercase`, and `Regex::new` with `is_match`, or none for an invalid pattern.
pub record Strings : Type 0 where
  pub to_lowercase : List ℕ → List ℕ
  pub regex : List ℕ → Option (List ℕ → Bool)

-- `==` of strings, and `str::contains`.
unfoldable pub string_eq : List ℕ → List ℕ → Bool
string_eq [] [] = true
string_eq (x ∷ xs) (y ∷ ys) = x == y && string_eq xs ys
string_eq _ _ = false

starts_with : List ℕ → List ℕ → Bool
starts_with value [] = true
starts_with [] (y ∷ ys) = false
starts_with (x ∷ xs) (y ∷ ys) = x == y && starts_with xs ys

unfoldable pub string_contains : List ℕ → List ℕ → Bool
unfolding starts_with
string_contains [] part = starts_with [] part
string_contains (x ∷ xs) part = starts_with (x ∷ xs) part || string_contains xs part

pub data Match {ℓ} (A : Type ℓ) : Type ℓ where
  any : Match A
  specific : A → Match A

pub data StringMatch : Type 0 where
  exact regex contains : List ℕ → StringMatch

pub data BcdVersionMatch : Type 0 where
  exact major : ℕ → BcdVersionMatch

-- The fields of `UsbDeviceInfo` that patterns read.
pub record UsbDeviceInfo : Type 0 where
  pub vid : ℕ
  pub pid : ℕ
  pub bcd_device : ℕ
  pub serial_number : Option (List ℕ)
  pub manufacturer : Option (List ℕ)
  pub product : Option (List ℕ)

pub record BoardPattern : Type 0 where
  pub vid : Match ℕ
  pub pid : Match ℕ
  pub bcd_device : Match BcdVersionMatch
  pub manufacturer : Match StringMatch
  pub product : Match StringMatch
  pub serial_pattern : Match StringMatch

pub record BoardDescriptor : Type 0 where
  pub pattern : BoardPattern
  pub name : List ℕ

abbrev pub wildcard : BoardPattern
wildcard = record {
  vid = any;
  pid = any;
  bcd_device = any;
  manufacturer = any;
  product = any;
  serial_pattern = any;
}

unfoldable pub is_specific {ℓ} : {A : Type ℓ} → Match A → Bool
is_specific any = false
is_specific (specific a) = true

unfoldable pub bcd_matches : BcdVersionMatch → ℕ → Bool
bcd_matches (exact expected) bcd_device = bcd_device == expected
bcd_matches (major jj) bcd_device = u8 (bcd_device / 2 ^ 8) == jj

unfoldable pub bcd_specificity : BcdVersionMatch → ℕ
bcd_specificity (exact expected) = 15
bcd_specificity (major jj) = 10

unfoldable pub string_specificity : StringMatch → ℕ
string_specificity (exact expected) = 20
string_specificity (regex pattern) = 15
string_specificity (contains substring) = 10

-- `if let Match::Specific(m) = field && !test(m) { return false; }`.
unfoldable pub field_matches {ℓ} : {A : Type ℓ} → Match A → (A → Bool) → Bool
field_matches any test = true
field_matches (specific a) test = test a

-- `if let Match::Specific(m) = field { score += m.specificity(); }`.
unfoldable pub field_score {ℓ} : {A : Type ℓ} → Match A → (A → ℕ) → ℕ
field_score any score = 0
field_score (specific a) score = score a

unfoldable pub specificity : BoardPattern → ℕ
specificity p =
    (if is_specific p.vid then 10 else 0)
    + (if is_specific p.pid then 10 else 0)
    + field_score p.bcd_device bcd_specificity
    + field_score p.manufacturer string_specificity
    + field_score p.product string_specificity
    + field_score p.serial_pattern string_specificity

-- `max_by_key`, which keeps the last of the greatest.
unfoldable pub max_loop : BoardDescriptor → List BoardDescriptor → BoardDescriptor
max_loop best [] = best
max_loop best (desc ∷ rest) =
    max_loop (if leb (specificity best.pattern) (specificity desc.pattern) then desc else best) rest

unfoldable pub most_specific : List BoardDescriptor → Option BoardDescriptor
most_specific [] = none
most_specific (desc ∷ rest) = some (max_loop desc rest)

module _ (strings : Strings) where
  regex_matches : Option (List ℕ → Bool) → List ℕ → Bool
  regex_matches none value = false
  regex_matches (some is_match) value = is_match value

  value_matches : StringMatch → List ℕ → Bool
  unfolding regex_matches
  value_matches (exact expected) value = string_eq value expected
  value_matches (regex pattern) value = regex_matches (strings.regex pattern) value
  value_matches (contains substring) value =
      string_contains (strings.to_lowercase value) (strings.to_lowercase substring)

  unfoldable pub string_matches : StringMatch → Option (List ℕ) → Bool
  unfolding value_matches
  string_matches m none = false
  string_matches m (some value) = value_matches m value

  -- `BoardPattern::matches`.
  unfoldable pub matches : BoardPattern → UsbDeviceInfo → Bool
  matches p device =
      field_matches p.vid (λ vid. device.vid == vid)
      && (field_matches p.pid (λ pid. device.pid == pid)
          && (field_matches p.bcd_device (λ m. bcd_matches m device.bcd_device)
              && (field_matches p.manufacturer (λ m. string_matches m device.manufacturer)
                  && (field_matches p.product (λ m. string_matches m device.product)
                      && field_matches p.serial_pattern
                          (λ m. string_matches m device.serial_number)))))

  -- `.filter(|desc| desc.pattern.matches(device))`.
  unfoldable pub matching : UsbDeviceInfo → List BoardDescriptor → List BoardDescriptor
  matching device [] = []
  matching device (desc ∷ rest) =
      let later = matching device rest in
      if matches desc.pattern device then desc ∷ later else later

  -- The registered descriptors are given in the order of the inventory.
  unfoldable pub find_descriptor : List BoardDescriptor → UsbDeviceInfo → Option BoardDescriptor
  find_descriptor inventory device = most_specific (matching device inventory)
