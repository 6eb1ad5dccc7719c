-- ===== src/Logger/Sent.antt =====
-- What a log line puts on the serial port.
use hry_os.Base.{
  ℕ, zero, suc, ◌+◌, ◌<◌, ◌≡◌, refl, sym, ap, ◌∙◌, true, Option, some, List, [], ◌∷◌, ◌++◌, map,
  append-nil, append_assoc, arith, Bool-cases, inl, inr,
}
use hry_os.Fallible.{◌>>=◌, Gives, Gives-mono, Gives-bind}
use hry_os.Format.{Arg, view, format_to, format_arg}
use hry_os.Format.Template.{Template, end, place, encode, IsTemplate, render, format_to-render}
use hry_os.Logger.{
  Level, string_level, com1_port, Serial, is_transmission_buffer_empty, write_char, write_text, log,
}

-- The device is ready after fewer than `fuel` reads, from whichever read on.
abbrev pub IsPatient : (ℕ → ℕ) → (ℕ → ℕ) → ℕ → Type 0
IsPatient status wait fuel =
    (n : ℕ) → (wait n < fuel) × (is_transmission_buffer_empty (status (n + wait n)) ≡ true)

-- A text comes out of the serial port, one write for each character.
abbrev pub Sent : List ℕ → Serial → Serial → Type 0
Sent text s l = l.ports ≡ s.ports ++ map (λ ch. (com1_port, ch)) text

map-append : {A B : Type 0} (f : A → B) (xs ys : List A) → map f (xs ++ ys) ≡ map f xs ++ map f ys
map-append f [] ys = refl
map-append f (x ∷ xs) ys = ap (λ rest. f x ∷ rest) (map-append f xs ys)

Sent-append :
    (text more : List ℕ) (s l m : Serial) → Sent text s l → Sent more l m → Sent (text ++ more) s m
Sent-append text more s l m sent sent' =
    sent'
    ∙ ap (λ ports. ports ++ map (λ ch. (com1_port, ch)) more) sent
    ∙ append_assoc s.ports (map (λ ch. (com1_port, ch)) text) (map (λ ch. (com1_port, ch)) more)
    ∙ ap (λ ports. s.ports ++ ports) (sym (map-append (λ ch. (com1_port, ch)) text more))

write_char-Sent :
    (status : ℕ → ℕ) (fuel m ch : ℕ) (s : Serial)
    → m < fuel
    → is_transmission_buffer_empty (status (s.reads + m)) ≡ true
    → Gives (Sent (ch ∷ []) s) (write_char status fuel ch s)
unfolding write_char
write_char-Sent status zero m ch s lt ready = absurd (omega arith)
write_char-Sent status (suc fuel) zero ch s lt ready =
    let here : s.reads + 0 ≡ s.reads = omega arith in
    let now : is_transmission_buffer_empty (status s.reads) ≡ true =
      ap (λ n. is_transmission_buffer_empty (status n)) (sym here) ∙ ready in
    rw now refl
write_char-Sent status (suc fuel) (suc m) ch s lt ready =
    let next : s.reads + suc m ≡ s.reads + 1 + m = omega arith in
    let later = ap (λ n. is_transmission_buffer_empty (status n)) (sym next) ∙ ready in
    let rest =
      write_char-Sent status fuel m ch (record s { reads = s.reads + 1 }) (omega arith) later in
    elim (Bool-cases (is_transmission_buffer_empty (status s.reads))) [
      | inl now ↦ rw now refl
      | inr not_yet ↦ rw not_yet rest
    ]

module _ (status wait : ℕ → ℕ) (fuel : ℕ) (patient : IsPatient status wait fuel) where
  char-Sent : (ch : ℕ) (s : Serial) → Gives (Sent (ch ∷ []) s) (write_char status fuel ch s)
  char-Sent ch s =
      write_char-Sent status fuel (wait s.reads) ch s (patient s.reads).0 (patient s.reads).1

  -- One write after another.
  and_then :
      (text more : List ℕ) (s : Serial) (o : Option Serial) (f : Serial → Option Serial)
      → Gives (Sent text s) o
      → ((l : Serial) → Gives (Sent more l) (f l))
      → Gives (Sent (text ++ more) s) (o >>= f)
  and_then text more s o f sent next =
      Gives-bind (Sent text s) (Sent (text ++ more) s) o f sent
        (λ l sent. Gives-mono (f l) (next l) (λ m sent'. Sent-append text more s l m sent sent'))

  text-Sent : (text : List ℕ) (s : Serial) → Gives (Sent text s) (write_text status fuel text s)
  unfolding write_text
  text-Sent [] s = sym (append-nil s.ports)
  text-Sent (ch ∷ text) s =
      and_then (ch ∷ []) text s (write_char status fuel ch s) (write_text status fuel text)
        (char-Sent ch s) (text-Sent text)

-- On a device that is ready within the fuel, from whichever read of its status on, a log call whose
-- arguments can be formatted returns and writes to the serial port, in order and with nothing
-- between, the level in brackets, the formatted text and the end of the line.
pub log-Sent :
    (status wait : ℕ → ℕ) (fuel : ℕ) (lvl : Level) (t : Template) (args : List Arg) (text : List ℕ)
    (s : Serial)
    → IsPatient status wait fuel
    → IsTemplate t
    → render t args ≡ some text
    → Gives
        (Sent ((b'[' ∷ (string_level lvl ++ (b']' ∷ b' ' ∷ []))) ++ (text ++ 13 ∷ 10 ∷ [])) s)
        (log status fuel lvl args (encode t) s)
unfolding log format_arg
log-Sent status wait fuel lvl t args text s patient is shown =
    let label = b'[' ∷ (string_level lvl ++ (b']' ∷ b' ' ∷ [])) in
    let labelled : format_to (view (string_level lvl) ∷ [])
          (b'[' ∷ b'{' ∷ b'}' ∷ b']' ∷ b' ' ∷ 0 ∷ [])
        ≡ some label =
      format_to-render (place (b'[' ∷ []) [] (end (b']' ∷ b' ' ∷ [])))
        (view (string_level lvl) ∷ []) (ground arith) in
    rw (labelled, format_to-render t args is ∙ shown)
      (and_then status wait fuel patient label (text ++ 13 ∷ 10 ∷ []) s _ _
        (text-Sent status wait fuel patient label s)
        (λ s.
          and_then status wait fuel patient text (13 ∷ 10 ∷ []) s _ _
            (text-Sent status wait fuel patient text s)
            (λ s.
              and_then status wait fuel patient (13 ∷ []) (10 ∷ []) s _ _
                (char-Sent status wait fuel patient 13 s) (char-Sent status wait fuel patient 10))))
