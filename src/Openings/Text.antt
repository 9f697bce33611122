-- ===== src/Openings/Text.antt =====
-- The description of the ledger group of an opening batch.
use Prim.Native.String.{◌++◌}
use kapra_os.Prelude.{ℕ, String, zero, suc, ◌+◌, ◌/◌, ◌%◌, ltb, if◌then◌else◌, ◌≡◌, refl}
use kapra_os.Tables.Uuid.{hex_text}

-- The decimal digits of a number, with fuel for them.
abbrev pub decimal_text : ℕ → ℕ → String
decimal_text zero n = ""
decimal_text (suc fuel) n =
    let rest = decimal_text fuel (n / 10) in
    if ltb n 10 then hex_text 1 n else rest ++ hex_text 1 (n % 10)

abbrev pub opening_text : ℕ → String
opening_text n = "Opening inventory (" ++ (decimal_text (n + 1) n ++ " line(s))")

text_of_twelve : opening_text 12 ≡ "Opening inventory (12 line(s))"
unfolding hex_text
text_of_twelve = refl
