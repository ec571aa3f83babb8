-- ===== src/Board/Pattern/Tests.antt =====
-- The selection of a board at concrete devices.
use nano_mujina.Prelude.{
  ℕ, ◌+◌, ◌≡◌, refl, ◌&&◌, none, some, List, [], ◌∷◌, map, leb, if◌then◌else◌,
}
use nano_mujina.Board.Pattern.{
  Strings, specific, exact, contains, UsbDeviceInfo, BoardDescriptor, wildcard, matches, matching,
  find_descriptor, most_specific, max_loop, specificity, field_matches, field_score, bcd_matches,
  bcd_specificity, string_matches, string_specificity, string_eq, string_contains, is_specific,
}
use nano_mujina.Board.Pattern.Selection.{Selected, find_descriptor-Selected}

-- ASCII letters only, and no pattern is a regular expression.
abbrev strings : Strings
strings = record {
  to_lowercase = map (λ c. if leb 65 c && leb c 90 then c + 32 else c);
  regex = λ pattern. none;
}

-- `OSMU` and `Bitaxe`.
abbrev osmu : List ℕ
osmu = 0x4f ∷ 0x53 ∷ 0x4d ∷ 0x55 ∷ []

abbrev bitaxe : List ℕ
bitaxe = 0x42 ∷ 0x69 ∷ 0x74 ∷ 0x61 ∷ 0x78 ∷ 0x65 ∷ []

abbrev gamma : UsbDeviceInfo
gamma = record {
  vid = 0xc0de;
  pid = 0xcafe;
  bcd_device = 0x0500;
  serial_number = none;
  manufacturer = some osmu;
  product = some bitaxe;
}

-- A pattern for the two ids, one for the ids and both strings, and one for another product.
abbrev inventory : List BoardDescriptor
inventory =
    record { pattern = record wildcard { vid = specific 0xc0de; pid = specific 0xcafe }; name = [] }
    ∷ record {
      pattern = record wildcard {
        vid = specific 0xc0de;
        manufacturer = specific (contains (0x73 ∷ 0x6d ∷ []));
        product = specific (exact bitaxe);
      };
      name = bitaxe;
    }
    ∷ record { pattern = record wildcard { product = specific (exact osmu) }; name = osmu }
    ∷ []

find_gamma :
    find_descriptor strings inventory gamma
    ≡ some (record {
      pattern = record wildcard {
        vid = specific 0xc0de;
        manufacturer = specific (contains (0x73 ∷ 0x6d ∷ []));
        product = specific (exact bitaxe);
      };
      name = bitaxe;
    })
unfolding find_descriptor matching matches most_specific max_loop specificity field_matches
    field_score bcd_matches bcd_specificity string_matches string_specificity string_eq
    string_contains is_specific
find_gamma = refl

find_descriptor-Selected_example :
    Selected strings inventory gamma (find_descriptor strings inventory gamma)
find_descriptor-Selected_example = find_descriptor-Selected strings inventory gamma
