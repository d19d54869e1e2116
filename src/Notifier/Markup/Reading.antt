-- ===== src/Notifier/Markup/Reading.antt =====
-- notifier/src/ui.rs: what an XML parser makes of the toasts of the notifier.
use timelord.Prelude.{
  ℕ, ◌≡◌, refl, ap, ◌∙◌, Bool, true, false, Option, none, some, List, [], ◌∷◌, ◌++◌, ◌&&◌,
  if◌then◌else◌,
}
use timelord.Prelude.Trim.{codes}
use timelord.Notifier.Wording.{ToastText}
use timelord.Notifier.Markup.{escape, toast_xml, scenario, actions}
use timelord.Notifier.Markup.Xml.{
  line_ends, is_text, with_text, read_end, read_body, read_title, read_document, read_toast,
}
use timelord.Notifier.Markup.Escaped.{read-escape, line_ends-escape, is_text-line_ends}

abbrev behind : List ℕ → List ℕ
behind [] = []
behind (c ∷ s) = s

abbrev closing : Bool → List ℕ
closing urgent = codes "</text></binding></visual>" ++ (actions urgent ++ codes "</toast>")

abbrev with_body : Bool → List ℕ → List ℕ
with_body urgent body = codes "</text><text>" ++ (escape body ++ closing urgent)

abbrev toast : Bool → List ℕ → List ℕ → ToastText
toast urgent title body = record { title = title; body = body; urgent = urgent }

read-end :
    (urgent : Bool) (title body : List ℕ)
    → read_end urgent title body (closing urgent) ≡ some (toast urgent title body)
unfolding read_end
read-end true title body = refl
read-end false title body = refl

-- What reads on behind a text does so if the text has no character that a document may not have.
with_text-if :
    (next : List ℕ → List ℕ → Option ToastText) (b : Bool) (text s : List ℕ)
    → with_text next (if b then some (text, s) else none) ≡ (if b then next text s else none)
with_text-if next true text s = refl
with_text-if next false text s = refl

read-body :
    (urgent : Bool) (title body : List ℕ)
    → read_body urgent title (with_body urgent body)
      ≡ (if is_text body then some (toast urgent title body) else none)
unfolding read_body
read-body urgent title body =
    ap (with_text (read_end urgent title)) (read-escape body [] (behind (closing urgent)))
    ∙ with_text-if (read_end urgent title) (is_text body) body (closing urgent)
    ∙ ap (λ m. if is_text body then m else none) (read-end urgent title body)

both :
    {A : Type 0} (b c : Bool) (m : Option A)
    → (if b then if c then m else none else none) ≡ (if b && c then m else none)
both true c m = refl
both false c m = refl

read-title :
    (urgent : Bool) (title body : List ℕ)
    → read_title urgent (
        codes "><visual><binding template=\"ToastGeneric\"><text>"
        ++ (escape title ++ with_body urgent body))
      ≡ (if is_text title && is_text body then some (toast urgent title body) else none)
unfolding read_title
read-title urgent title body =
    ap (with_text (read_body urgent)) (read-escape title [] (behind (with_body urgent body)))
    ∙ with_text-if (read_body urgent) (is_text title) title (with_body urgent body)
    ∙ ap (λ m. if is_text title then m else none) (read-body urgent title body)
    ∙ both (is_text title) (is_text body) (some (toast urgent title body))

read-document :
    (urgent : Bool) (title body : List ℕ)
    → read_document (toast_xml (toast urgent title body))
      ≡ (if is_text title && is_text body then some (toast urgent title body) else none)
unfolding read_document toast_xml
read-document true title body = read-title true title body
read-document false title body = read-title false title body

line_ends-body :
    (urgent : Bool) (body : List ℕ)
    → line_ends false (with_body urgent body) ≡ with_body urgent (line_ends false body)
unfolding line_ends
line_ends-body true body =
    ap (λ l. codes "</text><text>" ++ l) (line_ends-escape body (behind (closing true)) false)
line_ends-body false body =
    ap (λ l. codes "</text><text>" ++ l) (line_ends-escape body (behind (closing false)) false)

abbrev opening : Bool → List ℕ
opening urgent =
    codes "<toast"
    ++ (scenario urgent ++ codes "><visual><binding template=\"ToastGeneric\"><text>")

-- The line ends of a toast are those of its texts.
line_ends-toast_xml :
    (urgent : Bool) (title body : List ℕ)
    → line_ends false (toast_xml (toast urgent title body))
      ≡ toast_xml (toast urgent (line_ends false title) (line_ends false body))
unfolding line_ends toast_xml
line_ends-toast_xml true title body =
    ap (λ l. opening true ++ l)
      (line_ends-escape title (behind (with_body true body)) false
        ∙ ap (λ l. escape (line_ends false title) ++ l) (line_ends-body true body))
line_ends-toast_xml false title body =
    ap (λ l. opening false ++ l)
      (line_ends-escape title (behind (with_body false body)) false
        ∙ ap (λ l. escape (line_ends false title) ++ l) (line_ends-body false body))

-- By the rules of XML 1.0 on line ends, characters, character data and predefined entities, a toast's
-- XML reads as the title, the body and the urgency that it was made of, with the line ends that XML
-- gives them, if all characters of the two texts may stand in a document; if one may not, it does not
-- parse. No other character ends an element, starts one, or reads as an entity.
pub read-toast_xml :
    (text : ToastText)
    → read_toast (toast_xml text) ≡ (
        if is_text text.title && is_text text.body
        then some
            (record text { title = line_ends false text.title; body = line_ends false text.body })
        else none)
unfolding read_toast
read-toast_xml text =
    let title = line_ends false text.title in
    let body = line_ends false text.body in
    ap read_document (line_ends-toast_xml text.urgent text.title text.body)
    ∙ read-document text.urgent title body
    ∙ ap (λ b. if b && is_text body then some (toast text.urgent title body) else none)
        (is_text-line_ends text.title false)
    ∙ ap (λ b. if is_text text.title && b then some (toast text.urgent title body) else none)
        (is_text-line_ends text.body false)
