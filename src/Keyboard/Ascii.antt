-- ===== src/Keyboard/Ascii.antt =====
-- What the keyboard hands on: bytes become events, and keys become characters.
use hry_os.Base.{
  ℕ, ◌<◌, ◌≤◌, ◌≡◌, ◌≢◌, sym, ap, ◌∙◌, List, [], ◌∷◌, arith, if◌then◌else◌, ◌==◌, ◌⊎◌,
}
use hry_os.Keyboard.{ascii_table, map_key_to_ascii}

-- The key of a character, from the same table.
abbrev pub find_key : List (ℕ × ℕ) → ℕ → ℕ
find_key [] ch = 0
find_key ((k, c) ∷ cases) ch = if ch == c then k else find_key cases ch

pub printable :
    (key : ℕ)
    → (map_key_to_ascii key ≡ 0) ⊎ (32 ≤ map_key_to_ascii key × map_key_to_ascii key < 128)
unfolding map_key_to_ascii
printable key = ground arith

find_key-find_ascii :
    (key : ℕ) → map_key_to_ascii key ≢ 0 → find_key ascii_table (map_key_to_ascii key) ≡ key
unfolding map_key_to_ascii
find_key-find_ascii key visible = ground arith

-- No two keys give the same character other than zero.
pub map_key_to_ascii-injective :
    (k l : ℕ) → map_key_to_ascii k ≢ 0 → map_key_to_ascii k ≡ map_key_to_ascii l → k ≡ l
map_key_to_ascii-injective k l visible e =
    sym (find_key-find_ascii k visible)
    ∙ ap (find_key ascii_table) e
    ∙ find_key-find_ascii l (λ z. visible (e ∙ z))
