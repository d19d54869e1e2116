-- ===== src/Notifier/Markup/Xml.antt =====
-- The toasts of notifier/src/ui.rs as XML 1.0 reads them: line ends, character data with the five
-- predefined entities, and no other elements than those that a toast of the notifier has.
use timelord.Prelude.{
  ℕ, Bool, true, false, Option, none, some, List, [], ◌∷◌, ◌++◌, ◌==◌, leb, not, ◌&&◌, ◌||◌,
  if◌then◌else◌,
}
use timelord.Prelude.Text.{same_list}
use timelord.Prelude.Trim.{codes}
use timelord.Notifier.Wording.{ToastText}
use timelord.Notifier.Markup.{scenario, actions}

-- XML 1.0, 2.11: a carriage return, with a line feed that follows it, is read as a line feed. The flag
-- is whether the character before was a carriage return.
unfoldable pub line_ends : Bool → List ℕ → List ℕ
line_ends after_cr [] = []
line_ends after_cr (c ∷ s) =
    let then_cr = line_ends true s in
    let rest = line_ends false s in
    if c == b'\r' then b'\n' ∷ then_cr else if (c == b'\n') && after_cr then rest else c ∷ rest

-- XML 1.0, 2.2: the characters that a document may have.
abbrev pub is_char : ℕ → Bool
is_char c =
    (c == b'\t')
    || (c == b'\n')
    || (c == b'\r')
    || (leb 0x20 c && leb c 0xD7FF)
    || (leb 0xE000 c && leb c 0xFFFD)
    || (leb 0x10000 c && leb c 0x10FFFF)

abbrev pub is_text : List ℕ → Bool
is_text [] = true
is_text (c ∷ s) = is_char c && is_text s

abbrev pub same_codes : List ℕ → List ℕ → Bool
same_codes s t = same_list (λ a b. a == b) s t

-- The character of an entity's name.
abbrev pub entity : List ℕ → Option ℕ
entity name =
    if same_codes name (codes "amp")
    then some b'&'
    else if same_codes name (codes "lt")
    then some b'<'
    else if same_codes name (codes "gt")
    then some b'>'
    else if same_codes name (codes "quot")
    then some b'"'
    else if same_codes name (codes "apos")
    then some b'\''
    else none

abbrev pub ends_in_brackets : List ℕ → Bool
ends_in_brackets [] = false
ends_in_brackets (c ∷ s) = same_codes (c ∷ s) (codes "]]") || ends_in_brackets s

-- XML 1.0, 2.4: reads character data up to the next tag: the text so far, the name of an entity under
-- way, the input. The result is the text and what follows it; `none` is an error: a character that no
-- document may have, `]]>`, another reference than the five, or no tag.
unfoldable pub read_text : List ℕ → Option (List ℕ) → List ℕ → Option (List ℕ × List ℕ)
read_text out name [] = none
read_text out none (c ∷ s) =
    let begin = read_text out (some []) s in
    let plain = read_text (out ++ c ∷ []) none s in
    if c == b'<'
    then some (out, c ∷ s)
    else if c == b'&'
    then begin
    else if is_char c && not ((c == b'>') && ends_in_brackets out)
    then plain
    else none
read_text out (some name) (c ∷ s) =
    let more = read_text out (some (name ++ c ∷ [])) s in
    let ended : Option (List ℕ × List ℕ) = elim (entity name) [
      | none ↦ none
      | some d ↦ read_text (out ++ d ∷ []) none s
    ] in
    if c == b';' then ended else more

-- The rest of a text behind a prefix that it must have.
unfoldable pub strip : List ℕ → List ℕ → Option (List ℕ)
strip [] s = some s
strip (c ∷ p) [] = none
strip (c ∷ p) (d ∷ s) = if c == d then strip p s else none

unfoldable pub read_end : Bool → List ℕ → List ℕ → List ℕ → Option ToastText
unfolding strip
read_end urgent title body s =
    elim (strip (codes "</text></binding></visual>" ++ (actions urgent ++ codes "</toast>")) s) [
      | none ↦ none
      | some [] ↦ some (record { title = title; body = body; urgent = urgent })
      | some (c ∷ s') ↦ none
    ]

-- What follows the text that was read, if there was no error.
abbrev pub with_text :
    (List ℕ → List ℕ → Option ToastText) → Option (List ℕ × List ℕ) → Option ToastText
with_text next none = none
with_text next (some (text, s)) = next text s

unfoldable pub read_body : Bool → List ℕ → List ℕ → Option ToastText
unfolding strip read_end
read_body urgent title s = elim (strip (codes "</text><text>") s) [
  | none ↦ none
  | some s' ↦ with_text (read_end urgent title) (read_text [] none s')
]

unfoldable pub read_title : Bool → List ℕ → Option ToastText
unfolding strip read_body
read_title urgent s = elim (strip (codes "><visual><binding template=\"ToastGeneric\"><text>") s) [
  | none ↦ none
  | some s' ↦ with_text (read_body urgent) (read_text [] none s')
]

unfoldable pub read_document : List ℕ → Option ToastText
unfolding strip read_title
read_document xml = elim (strip (codes "<toast") xml) [
  | none ↦ none
  | some s ↦ elim (strip (scenario true) s) [
    | none ↦ read_title false s
    | some s' ↦ read_title true s'
  ]
]

-- The texts of a toast, and whether it stays on screen, for which it must have the scenario and the
-- button.
unfoldable pub read_toast : List ℕ → Option ToastText
unfolding line_ends read_document
read_toast xml = read_document (line_ends false xml)
