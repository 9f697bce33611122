-- ===== src/Tables/Uuid.antt =====
-- `str` of a UUID, which is a number of 128 bits.
use Prim.Native.String.{◌++◌}
use kapra_os.Prelude.{ℕ, zero, suc, ◌/◌, ◌%◌, ◌^◌, String, List, [], ◌∷◌, ◌≡◌, refl}

abbrev nth : ℕ → List String → String
nth n [] = ""
nth zero (s ∷ texts) = s
nth (suc n) (s ∷ texts) = nth n texts

abbrev hex_digits : List String
hex_digits =
    "0" ∷ "1" ∷ "2" ∷ "3" ∷ "4" ∷ "5" ∷ "6" ∷ "7" ∷ "8" ∷ "9" ∷ "a" ∷ "b" ∷ "c" ∷ "d" ∷ "e" ∷ "f"
    ∷ []

-- The last `k` hexadecimal digits.
unfoldable pub hex_text : ℕ → ℕ → String
hex_text zero n = ""
hex_text (suc k) n = hex_text k (n / 16) ++ nth (n % 16) hex_digits

unfoldable pub uuid_text : ℕ → String
unfolding hex_text
uuid_text n =
    hex_text 8 (n / 16 ^ 24)
    ++ ("-"
        ++ (hex_text 4 (n / 16 ^ 20)
            ++ ("-"
                ++ (hex_text 4 (n / 16 ^ 16)
                    ++ ("-" ++ (hex_text 4 (n / 16 ^ 12) ++ ("-" ++ hex_text 12 n)))))))

uuid_of_ten : uuid_text 0x1a ≡ "00000000-0000-0000-0000-00000000001a"
unfolding uuid_text
uuid_of_ten = refl
