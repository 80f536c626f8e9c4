-- ===== src/Stmt/Intern/Canon.antt =====
-- The encoding of a key can be read back where no text holds a zero byte.
use Prim.Native.Char.{Char, code}
use Prim.Native.String.{String, [], ◌∷◌}
use text.Mathlib.Text.{◌==◌ as str_eq}
use text.Mathlib.TextLemmas.{
  nil-append, cons-append, nil≢cons, cons≢nil, head-eq_of_cons-eq, tail-eq_of_cons-eq,
}
use stonks.Base.{
  some-injective, none_some, Bool, true, false, not, ◌&&◌, Option, none, some, List, ◌∷◌, [], ◌==◌,
  ◌≡◌, refl, sym, ap, ap₂, ◌∙◌, arith, All, clash, if◌then◌else◌,
}
use stonks.Types.AssetClass.{AssetClass}
use stonks.Types.Identifier.{Identifier, IdentifierType}
use stonks.Stmt.{Key}
use stonks.Stmt.Keys.{type_word}
use stonks.Stmt.Intern.{class_word, zero_byte, part, ended, canon_identifiers, class_part, canon}

unfoldable pub no_zero : String → Bool
no_zero [] = true
no_zero (c ∷ s) = not (code c == 0) && no_zero s

both : (a b : Bool) → (not a && b) ≡ true → (a ≡ false) × (b ≡ true)
both a b h = ground (arith, h)

not_zero_byte : (c : Char) (s : String) → no_zero (c ∷ s) ≡ true → zero_byte ≡ c → ⊥
unfolding no_zero
not_zero_byte c s h e = clash (ap (λ d. code d == 0) (sym e)) (both (code c == 0) (no_zero s) h).0

ended-nil : (x : String) → ended [] x ≡ zero_byte ∷ x
ended-nil x = nil-append (zero_byte ∷ x)

ended-cons : (c : Char) (s x : String) → ended (c ∷ s) x ≡ c ∷ ended s x
ended-cons c s x = cons-append c s (zero_byte ∷ x)

-- A text that ends at its first zero byte is read back.
ended-injective :
    (s t x y : String)
    → no_zero s ≡ true
    → no_zero t ≡ true
    → ended s x ≡ ended t y
    → (s ≡ t) × (x ≡ y)
unfolding no_zero
ended-injective [] [] x y a b e = (refl, tail-eq_of_cons-eq (sym (ended-nil x) ∙ e ∙ ended-nil y))
ended-injective [] (d ∷ t) x y a b e =
    absurd (not_zero_byte d t b (head-eq_of_cons-eq (sym (ended-nil x) ∙ e ∙ ended-cons d t y)))
ended-injective (c ∷ s) [] x y a b e =
    absurd (not_zero_byte c s a (head-eq_of_cons-eq (sym (ended-nil y) ∙ sym e ∙ ended-cons c s x)))
ended-injective (c ∷ s) (d ∷ t) x y a b e =
    let h = sym (ended-cons c s x) ∙ e ∙ ended-cons d t y in
    let (p, q) = ended-injective s t x y (both _ _ a).1 (both _ _ b).1 (tail-eq_of_cons-eq h) in
    (ap₂ (λ z w. z ∷ w) (head-eq_of_cons-eq h) p, q)

ended-ne : (s x : String) → ended s x ≡ "" → ⊥
ended-ne [] x e = cons≢nil (sym (ended-nil x) ∙ e)
ended-ne (c ∷ s) x e = cons≢nil (sym (ended-cons c s x) ∙ e)

-- The first of the values that has the word.
abbrev named {ℓ} : {A : Type ℓ} → (A → String) → String → A → List A → A
named word s a [] = a
named word s a (b ∷ bs) = if str_eq (word b) s then b else named word s a bs

types : List IdentifierType
types =
    IdentifierType.isin ∷ IdentifierType.cusip ∷ IdentifierType.cins ∷ IdentifierType.wertpapier
    ∷ IdentifierType.openfigi_share_class ∷ IdentifierType.sedol ∷ IdentifierType.openfigi_composite
    ∷ IdentifierType.mic_ticker ∷ IdentifierType.occ ∷ IdentifierType.currency
    ∷ IdentifierType.datasource_ticker ∷ IdentifierType.broker_id
    ∷ IdentifierType.broker_description ∷ IdentifierType.option ∷ []

type_named : (t : IdentifierType) → named type_word (type_word t) IdentifierType.isin types ≡ t
unfolding type_word types
type_named IdentifierType.isin = refl
type_named _ = refl

pub type_word-injective : (t u : IdentifierType) → type_word t ≡ type_word u → t ≡ u
type_word-injective t u e =
    sym (type_named t) ∙ ap (λ w. named type_word w IdentifierType.isin types) e ∙ type_named u

no_zero-type_word : (t : IdentifierType) → no_zero (type_word t) ≡ true
unfolding type_word no_zero
no_zero-type_word IdentifierType.isin = refl
no_zero-type_word _ = refl

classes : List AssetClass
classes =
    AssetClass.unknown ∷ AssetClass.cash ∷ AssetClass.security ∷ AssetClass.equity
    ∷ AssetClass.stock ∷ AssetClass.etf ∷ AssetClass.mutual_fund ∷ AssetClass.fixed_income
    ∷ AssetClass.derivative ∷ AssetClass.option ∷ AssetClass.future ∷ []

class_named : (c : AssetClass) → named class_word (class_word c) AssetClass.none classes ≡ c
unfolding class_word classes
class_named AssetClass.none = refl
class_named _ = refl

class_word-injective : (c d : AssetClass) → class_word c ≡ class_word d → c ≡ d
class_word-injective c d e =
    sym (class_named c) ∙ ap (λ w. named class_word w AssetClass.none classes) e ∙ class_named d

no_zero-class_word : (c : AssetClass) → no_zero (class_word c) ≡ true
unfolding class_word no_zero
no_zero-class_word AssetClass.none = refl
no_zero-class_word _ = refl

abbrev pub NoZero : Option String → Type 0
NoZero none = Unit
NoZero (some s) = no_zero s ≡ true

-- The texts of the key hold no zero byte.
abbrev pub IsClean : Key → Type 0
IsClean k =
    NoZero k.currency
    × All (λ (id : Identifier). (no_zero id.domain ≡ true) × (no_zero id.value ≡ true))
        k.identifiers

no_zero-part : (o : Option String) → NoZero o → no_zero (part o) ≡ true
unfolding no_zero
no_zero-part none h = refl
no_zero-part (some s) h = h

part-injective : (o p : Option String) → part o ≡ part p → o ≡ p
part-injective none none e = refl
part-injective none (some t) e = absurd (nil≢cons e)
part-injective (some s) none e = absurd (cons≢nil e)
part-injective (some s) (some t) e = ap (λ u. some u) (tail-eq_of_cons-eq e)

NoZero-class_part : (c : Option AssetClass) → NoZero (class_part c)
unfolding class_part
NoZero-class_part none = tt
NoZero-class_part (some c) = no_zero-class_word c

class_part-injective : (c d : Option AssetClass) → class_part c ≡ class_part d → c ≡ d
unfolding class_part
class_part-injective none none e = refl
class_part-injective none (some d) e = absurd (none_some refl e)
class_part-injective (some c) none e = absurd (some_none e)
  where
    some_none : {s : String} → some s ≡ none → ⊥
    some_none e = absurd (cc e)
class_part-injective (some c) (some d) e =
    ap (λ x. some x) (class_word-injective c d (some-injective e))

canon_identifiers-injective :
    (ids js : List Identifier)
    → All (λ (id : Identifier). (no_zero id.domain ≡ true) × (no_zero id.value ≡ true)) ids
    → All (λ (id : Identifier). (no_zero id.domain ≡ true) × (no_zero id.value ≡ true)) js
    → canon_identifiers ids ≡ canon_identifiers js
    → ids ≡ js
unfolding canon_identifiers
canon_identifiers-injective [] [] a b e = refl
canon_identifiers-injective [] (j ∷ js) a b e = absurd (ended-ne _ _ (sym e))
canon_identifiers-injective (i ∷ ids) [] a b e = absurd (ended-ne _ _ e)
canon_identifiers-injective (i ∷ ids) (j ∷ js) a b e =
    let (t, e1) =
      ended-injective (type_word i.type) (type_word j.type) _ _ (no_zero-type_word i.type)
        (no_zero-type_word j.type) e in
    let (d, e2) = ended-injective i.domain j.domain _ _ a.0.0 b.0.0 e1 in
    let (v, e3) = ended-injective i.value j.value _ _ a.0.1 b.0.1 e2 in
    let et = type_word-injective i.type j.type t in
    let same : i ≡ j = (λ x. record { type = et x; domain = d x; value = v x }) in
    ap₂ (λ z zs. z ∷ zs) same (canon_identifiers-injective ids js a.1 b.1 e3)

-- Two keys with one encoding are one key, where no text of theirs holds a zero byte: the encoding can
-- be read back.
pub canon-injective : (k l : Key) → IsClean k → IsClean l → canon k ≡ canon l → k ≡ l
unfolding canon
canon-injective k l a b e =
    let (c, e1) =
      ended-injective (part (class_part k.class)) (part (class_part l.class)) _ _
        (no_zero-part (class_part k.class) (NoZero-class_part k.class))
        (no_zero-part (class_part l.class) (NoZero-class_part l.class)) e in
    let (u, e2) =
      ended-injective (part k.currency) (part l.currency) _ _ (no_zero-part k.currency a.0)
        (no_zero-part l.currency b.0) e1 in
    let ec = class_part-injective k.class l.class (part-injective _ _ c) in
    let eu = part-injective k.currency l.currency u in
    let ei = canon_identifiers-injective k.identifiers l.identifiers a.1 b.1 e2 in
    λ x. record { class = ec x; currency = eu x; identifiers = ei x }
