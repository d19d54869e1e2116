-- ===== src/Notifier/Markup/Escaped.antt =====
-- notifier/src/ui.rs: what an XML parser makes of a text that `escape` has written.
use mathlib.Core.Path.{subst}
use mathlib.Core.List.{append_assoc, append-nil}
use timelord.Prelude.{
  ℕ, ◌≡◌, refl, sym, ap, ◌∙◌, Bool, true, false, none, some, List, [], ◌∷◌, ◌++◌, ◌==◌,
  if◌then◌else◌, Bool-cases, inl, inr, arith, ◌&&◌,
}
use timelord.Prelude.Trim.{codes}
use timelord.Notifier.Markup.{replace, escape}
use timelord.Notifier.Markup.Xml.{line_ends, is_char, is_text, read_text}

-- What one character is written as.
abbrev written : ℕ → List ℕ
written c =
    if c == b'&'
    then codes "&amp;"
    else if c == b'<'
    then codes "&lt;"
    else if c == b'>'
    then codes "&gt;"
    else if c == b'"'
    then codes "&quot;"
    else if c == b'\''
    then codes "&apos;"
    else c ∷ []

replace-append :
    (from : ℕ) (to s t : List ℕ) → replace from to (s ++ t) ≡ replace from to s ++ replace from to t
unfolding replace
replace-append from to [] t = refl
replace-append from to (c ∷ s) t =
    rw (replace-append from to s t) (
      sym (append_assoc (if c == from then to else c ∷ []) (replace from to s) (replace from to t)))

escape-cons : (c : ℕ) (s : List ℕ) → escape (c ∷ s) ≡ written c ++ escape s
unfolding escape
escape-cons c s = elim (Bool-cases (c == b'&')) [
  | inl amp ↦ rw amp refl
  | inr no_amp ↦ elim (Bool-cases (c == b'<')) [
    | inl lt ↦ rw no_amp (rw lt refl)
    | inr no_lt ↦ elim (Bool-cases (c == b'>')) [
      | inl gt ↦ rw no_amp (rw no_lt (rw gt refl))
      | inr no_gt ↦ elim (Bool-cases (c == b'"')) [
        | inl quot ↦ rw no_amp (rw no_lt (rw no_gt (rw quot refl)))
        | inr no_quot ↦ rw no_amp (rw no_lt (rw no_gt (rw no_quot refl)))
      ]
    ]
  ]
]

escape-nil : escape [] ≡ []
unfolding escape
escape-nil = refl

-- What holds of each character with an entity, and of every other character as it is, holds of every
-- character with what it is written as.
written-elim :
    (P : ℕ → List ℕ → Type 0)
    → P b'&' (codes "&amp;")
    → P b'<' (codes "&lt;")
    → P b'>' (codes "&gt;")
    → P b'"' (codes "&quot;")
    → P b'\'' (codes "&apos;")
    → ((c : ℕ) → (c == b'&') ≡ false → (c == b'<') ≡ false → (c == b'>') ≡ false → P c (c ∷ []))
    → (c : ℕ) → P c (written c)
written-elim P amp lt gt quot apos plain c = elim (Bool-cases (c == b'&')) [
  | inl h ↦ rw h (named b'&' (codes "&amp;") amp h)
  | inr no_amp ↦ elim (Bool-cases (c == b'<')) [
    | inl h ↦ rw (no_amp, h) (named b'<' (codes "&lt;") lt h)
    | inr no_lt ↦ elim (Bool-cases (c == b'>')) [
      | inl h ↦ rw (no_amp, no_lt, h) (named b'>' (codes "&gt;") gt h)
      | inr no_gt ↦ elim (Bool-cases (c == b'"')) [
        | inl h ↦ rw (no_amp, no_lt, no_gt, h) (named b'"' (codes "&quot;") quot h)
        | inr no_quot ↦ elim (Bool-cases (c == b'\'')) [
          | inl h ↦ rw (no_amp, no_lt, no_gt, no_quot, h) (named b'\'' (codes "&apos;") apos h)
          | inr no_apos ↦ rw (no_amp, no_lt, no_gt, no_quot, no_apos) (plain c no_amp no_lt no_gt)
        ]
      ]
    ]
  ]
]
  where
    named : (d : ℕ) (w : List ℕ) → P d w → (c == d) ≡ true → P c w
    named d w p e = subst (λ x. P x w) (ground (arith, e)) p

read-written :
    (out rest : List ℕ) (c : ℕ)
    → read_text out none (written c ++ rest)
      ≡ (if is_char c then read_text (out ++ c ∷ []) none rest else none)
unfolding read_text
read-written out rest =
    written-elim
      (λ c w.
        read_text out none (w ++ rest)
        ≡ (if is_char c then read_text (out ++ c ∷ []) none rest else none))
      refl refl refl refl refl
      (λ c no_amp no_lt no_gt.
        rw (no_lt, no_amp, no_gt)
          (elim (Bool-cases (is_char c)) [ inl h ↦ rw h refl | inr h ↦ rw h refl ]))

pub read-escape :
    (s out rest : List ℕ)
    → read_text out none (escape s ++ b'<' ∷ rest)
      ≡ (if is_text s then some (out ++ s, b'<' ∷ rest) else none)
unfolding read_text
read-escape [] out rest = rw escape-nil (rw append-nil refl)
read-escape (c ∷ s) out rest =
    ap (λ l. read_text out none (l ++ b'<' ∷ rest)) (escape-cons c s)
    ∙ ap (read_text out none) (append_assoc (written c) (escape s) (b'<' ∷ rest))
    ∙ read-written out (escape s ++ b'<' ∷ rest) c
    ∙ elim (Bool-cases (is_char c)) [
      | inl h ↦ rw h (
          read-escape s (out ++ c ∷ []) rest
          ∙ ap (λ l. if is_text s then some (l, b'<' ∷ rest) else none)
              (append_assoc out (c ∷ []) s))
      | inr h ↦ rw h refl
    ]

line_ends-written :
    (t : List ℕ) (c : ℕ) (after_cr : Bool)
    → (c == b'\r') ≡ false
    → ((c == b'\n') && after_cr) ≡ false
    → line_ends after_cr (written c ++ t) ≡ written c ++ line_ends false t
unfolding line_ends
line_ends-written t =
    written-elim
      (λ c w.
        (after_cr : Bool)
        → (c == b'\r') ≡ false
        → ((c == b'\n') && after_cr) ≡ false
        → line_ends after_cr (w ++ t) ≡ w ++ line_ends false t)
      (λ a r n. refl) (λ a r n. refl) (λ a r n. refl) (λ a r n. refl) (λ a r n. refl)
      (λ c no_amp no_lt no_gt a r n. rw (r, n) refl)

line_ends-plain :
    (c : ℕ) (s : List ℕ) (after_cr : Bool)
    → (c == b'\r') ≡ false
    → ((c == b'\n') && after_cr) ≡ false
    → line_ends after_cr (c ∷ s) ≡ c ∷ line_ends false s
unfolding line_ends
line_ends-plain c s a r n = rw (r, n) refl

-- Of the three kinds of characters that `line_ends` tells apart, each holds what holds of them.
line_ends-elim :
    (P : ℕ → Bool → Type 0)
    → ((a : Bool) → P b'\r' a)
    → P b'\n' true
    → ((c : ℕ) (a : Bool) → (c == b'\r') ≡ false → ((c == b'\n') && a) ≡ false → P c a)
    → (c : ℕ) (a : Bool) → P c a
line_ends-elim P cr lf plain c a = elim (Bool-cases (c == b'\r')) [
  | inl h ↦ subst (λ d. P d a) (ground (arith, h)) (cr a)
  | inr no_cr ↦ elim (Bool-cases ((c == b'\n') && a)) [
    | inl h ↦ subst (P c) (ground (arith, h)) (subst (λ d. P d true) (ground (arith, h)) lf)
    | inr no_lf ↦ plain c a no_cr no_lf
  ]
]

-- The line ends of an escaped text are those of the text.
pub line_ends-escape :
    (s rest : List ℕ) (after_cr : Bool)
    → line_ends after_cr (escape s ++ b'<' ∷ rest)
      ≡ escape (line_ends after_cr s) ++ b'<' ∷ line_ends false rest
unfolding line_ends
line_ends-escape [] rest a = rw escape-nil refl
line_ends-escape (c ∷ s) rest a =
    let later = escape s ++ b'<' ∷ rest in
    let end = b'<' ∷ line_ends false rest in
    ap (λ l. line_ends a (l ++ b'<' ∷ rest)) (escape-cons c s)
    ∙ ap (line_ends a) (append_assoc (written c) (escape s) (b'<' ∷ rest))
    ∙ line_ends-elim (λ d b. line_ends b (written d ++ later) ≡ escape (line_ends b (d ∷ s)) ++ end)
        (λ b.
          ap (λ l. b'\n' ∷ l) (line_ends-escape s rest true)
          ∙ sym (ap (λ l. l ++ end) (escape-cons b'\n' (line_ends true s))))
        (line_ends-escape s rest false)
        (λ d b r n.
          line_ends-written later d b r n
          ∙ ap (λ l. written d ++ l) (line_ends-escape s rest false)
          ∙ sym (append_assoc (written d) (escape (line_ends false s)) end)
          ∙ sym (ap (λ l. l ++ end) (escape-cons d (line_ends false s)))
          ∙ ap (λ l. escape l ++ end) (sym (line_ends-plain d s b r n)))
        c a

pub is_text-line_ends : (s : List ℕ) (after_cr : Bool) → is_text (line_ends after_cr s) ≡ is_text s
unfolding line_ends
is_text-line_ends [] a = refl
is_text-line_ends (c ∷ s) a =
    line_ends-elim (λ d b. is_text (line_ends b (d ∷ s)) ≡ is_text (d ∷ s))
      (λ b. is_text-line_ends s true) (is_text-line_ends s false)
      (λ d b r n.
        ap is_text (line_ends-plain d s b r n)
        ∙ ap (λ b. is_char d && b) (is_text-line_ends s false))
      c a
