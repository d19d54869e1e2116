-- ===== src/Notifier/Markup.antt =====
-- notifier/src/ui.rs: the XML of a toast. A text is the list of its code points.
pub mod Xml
pub mod Escaped
pub mod Reading
use timelord.Prelude.{ℕ, Bool, true, false, List, [], ◌∷◌, ◌++◌, ◌==◌, if◌then◌else◌}
use timelord.Prelude.Trim.{codes}
use timelord.Notifier.Wording.{ToastText}

-- `str::replace` of a character.
unfoldable pub replace : ℕ → List ℕ → List ℕ → List ℕ
replace from to [] = []
replace from to (c ∷ text) = (if c == from then to else c ∷ []) ++ replace from to text

unfoldable pub escape : List ℕ → List ℕ
unfolding replace
escape text = replace b'\'' (codes "&apos;") (
    replace b'"' (codes "&quot;") (
      replace b'>' (codes "&gt;")
        (replace b'<' (codes "&lt;") (replace b'&' (codes "&amp;") text))))

-- Windows keeps a toast with the scenario `reminder` on screen only if it has a button.
abbrev pub scenario : Bool → List ℕ
scenario true = codes " scenario=\"reminder\""
scenario false = []

abbrev pub actions : Bool → List ℕ
actions true =
    codes
      "<actions><action content=\"Dismiss\" arguments=\"dismiss\" activationType=\"system\"/></actions>"
actions false = []

unfoldable pub toast_xml : ToastText → List ℕ
unfolding escape
toast_xml text =
    codes "<toast"
    ++ (scenario text.urgent
        ++ (codes "><visual><binding template=\"ToastGeneric\"><text>"
            ++ (escape text.title
                ++ (codes "</text><text>"
                    ++ (escape text.body
                        ++ (codes "</text></binding></visual>"
                            ++ (actions text.urgent ++ codes "</toast>")))))))
