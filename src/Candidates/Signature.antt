-- ===== src/Candidates/Signature.antt =====
-- backend/src/candidates/cv-file-signature.util.ts: the kind of a file by its bytes.
use recruit_saas.Common.{
  take, ℕ, ◌≡◌, refl, ap, ◌∙◌, ◌↔◌, inl, inr, Bool, true, false, Option, none, some, List, [], ◌∷◌,
  ◌++◌, ◌==◌, ◌&&◌, ◌||◌, not, if◌then◌else◌, arith, Bool-cases,
}

pub data CvFileKind : Type 0 where
  pdf doc docx : CvFileKind

-- `%PDF-`
abbrev pub pdf_signature : List ℕ
pdf_signature = b'%' ∷ b'P' ∷ b'D' ∷ b'F' ∷ b'-' ∷ []

abbrev pub doc_signature : List ℕ
doc_signature = 0xd0 ∷ 0xcf ∷ 0x11 ∷ 0xe0 ∷ 0xa1 ∷ 0xb1 ∷ 0x1a ∷ 0xe1 ∷ []

abbrev pub zip_signature : List ℕ
zip_signature = 0x50 ∷ 0x4b ∷ 0x03 ∷ 0x04 ∷ []

-- `word/`
abbrev pub word_text : List ℕ
word_text = b'w' ∷ b'o' ∷ b'r' ∷ b'd' ∷ b'/' ∷ []

-- `buffer.subarray(0, signature.length).equals(signature)`
abbrev pub starts_with : List ℕ → List ℕ → Bool
starts_with [] buffer = true
starts_with (x ∷ signature) [] = false
starts_with (x ∷ signature) (y ∷ buffer) = x == y && starts_with signature buffer

-- `buffer.includes(text)`, for a text that is not empty.
abbrev pub includes : List ℕ → List ℕ → Bool
includes text [] = false
includes text (x ∷ buffer) = starts_with text (x ∷ buffer) || includes text buffer

abbrev docx_if : Bool → Option CvFileKind
docx_if true = some docx
docx_if false = none

pub detect_cv_file_kind : List ℕ → Option CvFileKind
detect_cv_file_kind buffer =
    if starts_with pdf_signature buffer
    then some pdf
    else if starts_with doc_signature buffer
    then some doc
    else if starts_with zip_signature buffer
    then docx_if (includes word_text (take 4096 buffer))
    else none

-- The buffer begins with the signature.
pub starts_with_iff :
    (s buffer : List ℕ) → (starts_with s buffer ≡ true) ↔ ((rest : List ℕ) × (buffer ≡ s ++ rest))
starts_with_iff s buffer = (there s buffer, back s buffer)
  where
    there :
        (s buffer : List ℕ) → starts_with s buffer ≡ true → (rest : List ℕ) × (buffer ≡ s ++ rest)
    there [] buffer e = (buffer, refl)
    there (x ∷ s) [] e = absurd (ground arith)
    there (x ∷ s) (y ∷ buffer) e =
        let (rest, q) = there s buffer (ground arith) in
        let same : y ≡ x = ground arith in (rest, ap (λ k. k ∷ buffer) same ∙ ap (λ k. x ∷ k) q)

    back :
        (s buffer : List ℕ) → (rest : List ℕ) × (buffer ≡ s ++ rest) → starts_with s buffer ≡ true
    back [] buffer h = refl
    back (x ∷ s) [] (rest, q) = absurd (ground arith)
    back (x ∷ s) (y ∷ buffer) (rest, q) = ground (arith, back s buffer (rest, ground arith))

-- The text stands somewhere in the buffer.
abbrev pub Within : List ℕ → List ℕ → Type 0
Within text buffer = (before : List ℕ) × (after : List ℕ) × (buffer ≡ before ++ text ++ after)

pub includes-Within : (text buffer : List ℕ) → includes text buffer ≡ true → Within text buffer
includes-Within text [] e = absurd (ground arith)
includes-Within text (x ∷ buffer) e = elim (Bool-cases (starts_with text (x ∷ buffer))) [
  | inl h ↦ let (rest, q) = (starts_with_iff text (x ∷ buffer)).0 h in ([], rest, q)
  | inr h ↦
      let (before, after, q) = includes-Within text buffer (ground arith) in
      (x ∷ before, after, ap (λ k. x ∷ k) q)
]

-- A text that is not empty.
pub Within-includes :
    (x : ℕ) (text buffer : List ℕ) → Within (x ∷ text) buffer → includes (x ∷ text) buffer ≡ true
Within-includes x text [] ([], after, q) = absurd (ground arith)
Within-includes x text [] (y ∷ before, after, q) = absurd (ground arith)
Within-includes x text (b ∷ buffer) ([], after, q) =
    let first = (starts_with_iff (x ∷ text) (b ∷ buffer)).1 (after, q) in ground (arith, first)
Within-includes x text (b ∷ buffer) (y ∷ before, after, q) =
    let rest = Within-includes x text buffer (before, after, ground arith) in ground (arith, rest)

abbrev pub Begins : List ℕ → List ℕ → Type 0
Begins s buffer = (rest : List ℕ) × (buffer ≡ s ++ rest)

-- The first bytes of the two are there and differ.
abbrev differ_at_once : List ℕ → List ℕ → Bool
differ_at_once (x ∷ s) (y ∷ t) = not (x == y)
differ_at_once s t = false

one_signature :
    (s t buffer : List ℕ)
    → differ_at_once s t ≡ true
    → starts_with s buffer ≡ true
    → starts_with t buffer ≡ false
one_signature [] t buffer other e = absurd (ground arith)
one_signature (x ∷ s) [] buffer other e = absurd (ground arith)
one_signature (x ∷ s) (y ∷ t) [] other e = absurd (ground arith)
one_signature (x ∷ s) (y ∷ t) (b ∷ buffer) other e = elim (Bool-cases (y == b)) [
  | inl same ↦ absurd (ground arith)
  | inr differs ↦ ground arith
]

-- The order of the tests does not show where no two of them hold together.
kind_lem :
    (p d z w : Bool)
    → (p ≡ true → d ≡ false)
    → (p ≡ true → z ≡ false)
    → (d ≡ true → z ≡ false)
    → let kind = if p then some pdf else if d then some doc else if z then docx_if w else none in
      ((kind ≡ some pdf) ↔ (p ≡ true))
      × ((kind ≡ some doc) ↔ (d ≡ true))
      × ((kind ≡ some docx) ↔ ((z ≡ true) × (w ≡ true)))
kind_lem true true z w a b c = absurd (ground (arith, a refl))
kind_lem true false true w a b c = absurd (ground (arith, b refl))
kind_lem true false false w a b c = (ground arith, ground arith, ground arith)
kind_lem false true true w a b c = absurd (ground (arith, c refl))
kind_lem false true false w a b c = (ground arith, ground arith, ground arith)
kind_lem false false true true a b c = (ground arith, ground arith, ground arith)
kind_lem false false true false a b c = (ground arith, ground arith, ground arith)
kind_lem false false false w a b c = (ground arith, ground arith, ground arith)

-- A file is a PDF, a DOC or a DOCX exactly when it begins with the signature of the kind; a DOCX has the
-- text "word/" within its first 4096 bytes, too.
pub detect_cv_file_kind_lem :
    (buffer : List ℕ)
    → ((detect_cv_file_kind buffer ≡ some pdf) ↔ Begins pdf_signature buffer)
      × ((detect_cv_file_kind buffer ≡ some doc) ↔ Begins doc_signature buffer)
      × ((detect_cv_file_kind buffer ≡ some docx)
          ↔ (Begins zip_signature buffer × Within word_text (take 4096 buffer)))
unfolding detect_cv_file_kind
detect_cv_file_kind_lem buffer =
    let p = starts_with_iff pdf_signature buffer in
    let d = starts_with_iff doc_signature buffer in
    let z = starts_with_iff zip_signature buffer in
    let (pdf_eq, doc_eq, docx_eq) =
      kind_lem (starts_with pdf_signature buffer) (starts_with doc_signature buffer)
        (starts_with zip_signature buffer) (includes word_text (take 4096 buffer))
        (one_signature pdf_signature doc_signature buffer refl)
        (one_signature pdf_signature zip_signature buffer refl)
        (one_signature doc_signature zip_signature buffer refl) in
    (
      ((λ e. p.0 (pdf_eq.0 e)), λ h. pdf_eq.1 (p.1 h)),
      ((λ e. d.0 (doc_eq.0 e)), λ h. doc_eq.1 (d.1 h)),
      (
        (λ e. (z.0 (docx_eq.0 e).0, includes-Within word_text (take 4096 buffer) (docx_eq.0 e).1)),
        λ h.
            docx_eq.1 (
              z.1 h.0,
              Within-includes b'w' (b'o' ∷ b'r' ∷ b'd' ∷ b'/' ∷ []) (take 4096 buffer) h.1,
            ),
      ),
    )
