-- ===== src/Examples/Export.antt =====
-- The export of a notebook on concrete texts.
use valaf.Common.{false, ◌≤◌, ◌≡◌, refl, none, some, ◌∷◌, ◌++◌, All, length}
use valaf.Common.Text.{Text, codes}
use valaf.Export.{filename, exporter_for, markdown}
use valaf.Export.Docx.{escape_xml}
use valaf.Export.Escape.{IsPlain, normalise_lines, read_text, read_text-escape_xml}
use valaf.Export.Filename.{Safe, filename-Safe}

-- a title that looks like a path
abbrev title : Text
title = codes "../Disk \"full\" on DB-1!"

abbrev id : Text
id = codes "3f2b8c1a-77d0"

named : filename title id (codes "md") ≡ codes "valaf-disk-full-on-db-1-3f2b8c1a.md"
unfolding filename
named = refl

id-Safe : All Safe id
id-Safe = (
  refl,
  (
    refl,
    (refl, (refl, (refl, (refl, (refl, (refl, (refl, (refl, (refl, (refl, (refl, tt))))))))))),
  ),
)

filename-Safe_example :
    (stem : Text) × (filename title id (codes "md") ≡ codes "valaf-" ++ (stem ++ b'.' ∷ codes "md"))
    × All Safe stem
    × (length (codes "valaf-" ++ stem) ≤ 75)
filename-Safe_example = filename-Safe title id (codes "md") id-Safe

-- a text that tries to close its element
abbrev text : Text
text = codes "a</w>\""

escaped : escape_xml text ≡ codes "a&lt;/w&gt;&quot;"
unfolding escape_xml
escaped = refl

plain : All IsPlain text
plain = (
  (refl, refl),
  ((refl, refl), ((refl, refl), ((refl, refl), ((refl, refl), ((refl, refl), tt))))),
)

read_text-escape_xml_example :
    read_text none (normalise_lines false (escape_xml text ++ b'<' ∷ codes "/w:t>"))
    ≡ some (text, b'<' ∷ normalise_lines false (codes "/w:t>"))
read_text-escape_xml_example = read_text-escape_xml text (codes "/w:t>") plain

-- the names of formats are read in any case
known : exporter_for (codes "MarkDown") ≡ some markdown
unfolding exporter_for
known = refl
