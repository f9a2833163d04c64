-- ===== src/Language/SelfInit.antt =====
-- The search for a member that is initialized with itself, \b([A-Za-z0-9_]*_)\(\1\) (clint.py:2664).
use mit_6172_fa15_project.Base.{
  Bool, true, false, not, ◌&&◌, ◌||◌, [], ◌∷◌, ◌++◌, Text, ◌≡◌, ◌↔◌, refl, sym, ap, ◌∙◌, All,
  Bool-cases, inl, inr, append_assoc,
}
use mit_6172_fa15_project.Str.{codes}
use mit_6172_fa15_project.Str.Laws.{starts_with-append, starts_with_rest}
use mit_6172_fa15_project.Regex.Find.{Onward, stay, walk}
use mit_6172_fa15_project.Regex.Notation.{is_word}
use mit_6172_fa15_project.Language.Types.{
  leading_word, ends_in_underscore, follows_word, initializes_at, initializes_itself,
}

abbrev IsWord : Text → Type 0
IsWord w = All (λ c. is_word c ≡ true) w

leading_word-IsWord : (s : Text) → IsWord (leading_word s)
leading_word-IsWord [] = tt
leading_word-IsWord (c ∷ s) = elim (Bool-cases (is_word c)) [
  | inl y ↦ rw y (y, leading_word-IsWord s)
  | inr n ↦ rw n tt
]

leading_word-append : (w t : Text) → IsWord w → leading_word (w ++ b'(' ∷ t) ≡ w
unfolding is_word
leading_word-append [] t h = refl
leading_word-append (c ∷ w) t h = rw h.0 (ap (λ u. c ∷ u) (leading_word-append w t h.1))

-- A name that ends in _, and the same name in parentheses behind it.
pub record IsSelfInit (s : Text) : Type 0 where
  pub name : Text
  pub behind : Text
  pub is_name : IsWord name
  pub underscore : ends_in_underscore name ≡ true
  pub text : s ≡ name ++ b'(' ∷ (name ++ b')' ∷ behind)

parenthesized : Text → Text
parenthesized w = w ++ (codes "(" ++ (w ++ codes ")"))

parenthesized-append : (w t : Text) → parenthesized w ++ t ≡ w ++ b'(' ∷ (w ++ b')' ∷ t)
unfolding parenthesized codes
parenthesized-append w t =
    append_assoc w (codes "(" ++ (w ++ codes ")")) t
    ∙ ap (λ u. w ++ b'(' ∷ u) (append_assoc w (codes ")") t)

both : (a b : Bool) → (a && b) ≡ true → (a ≡ true) × (b ≡ true)
both true b e = (refl, e)
both false b e = cc

initializes_at_iff : (s : Text) → (initializes_at s ≡ true) ↔ IsSelfInit s
unfolding initializes_at codes parenthesized
initializes_at_iff s = (λ e. to e, λ i. from i)
  where
    to : initializes_at s ≡ true → IsSelfInit s
    to e =
        let (u, v) = both (ends_in_underscore (leading_word s)) _ e in
        let (t, p) = starts_with_rest s (parenthesized (leading_word s)) v in
        record {
          name = leading_word s;
          behind = t;
          is_name = leading_word-IsWord s;
          underscore = u;
          text = p ∙ parenthesized-append (leading_word s) t;
        }

    from : IsSelfInit s → initializes_at s ≡ true
    from i =
        let e : leading_word s ≡ i.name =
          ap leading_word i.text
          ∙ leading_word-append i.name (i.name ++ b')' ∷ i.behind) i.is_name in
        let q = sym (i.text ∙ sym (parenthesized-append i.name i.behind)) in
        rw (e, i.underscore, ← q) (starts_with-append (parenthesized i.name) i.behind)

or_true : (b : Bool) → (b || true) ≡ true
or_true true = refl
or_true false = refl

-- The place of the text at which a member is initialized with itself: no part of a longer name.
pub record Initializes (before line : Text) : Type 0 where
  pub before_name : Text
  pub rest : Text
  pub place : Onward before line before_name rest
  pub is_start : follows_word before_name ≡ false
  pub self_init : IsSelfInit rest

empty-IsSelfInit : ¬ (IsSelfInit [])
empty-IsSelfInit i = go i.name i.text
  where
    go : (w : Text) → ¬ ([] ≡ w ++ b'(' ∷ (i.name ++ b')' ∷ i.behind))
    go [] e = cc
    go (c ∷ w) e = cc

Initializes-from :
    (before line : Text) → (initializes_itself before line ≡ true) ↔ Initializes before line
unfolding initializes_itself
Initializes-from before [] = (λ e. cc, λ i. none_left i.place i.self_init)
  where
    none_left : {b r : Text} → Onward before [] b r → IsSelfInit r → false ≡ true
    none_left stay s = absurd (empty-IsSelfInit s)
Initializes-from before (c ∷ line) =
    let (f, g) = Initializes-from (c ∷ before) line in
    let (h, k) = initializes_at_iff (c ∷ line) in
    (
      λ e. to f h (follows_word before) (initializes_at (c ∷ line)) refl refl e,
      λ i. from g k i.place i.is_start i.self_init,
    )
  where
    Further : Type 0
    Further = initializes_itself (c ∷ before) line ≡ true

    further : Initializes (c ∷ before) line → Initializes before (c ∷ line)
    further i = record {
      before_name = i.before_name;
      rest = i.rest;
      place = walk i.place;
      is_start = i.is_start;
      self_init = i.self_init;
    }

    to :
        (Further → Initializes (c ∷ before) line)
        → (initializes_at (c ∷ line) ≡ true → IsSelfInit (c ∷ line))
        → (w a : Bool) → follows_word before ≡ w
        → initializes_at (c ∷ line) ≡ a
        → ((not w && a) || initializes_itself (c ∷ before) line) ≡ true
        → Initializes before (c ∷ line)
    to f h false true p q e = record {
      before_name = before;
      rest = c ∷ line;
      place = stay;
      is_start = p;
      self_init = h q;
    }
    to f h false false p q e = further (f e)
    to f h true a p q e = further (f e)

    from :
        {b r : Text}
        → (Initializes (c ∷ before) line → Further)
        → (IsSelfInit (c ∷ line) → initializes_at (c ∷ line) ≡ true)
        → Onward before (c ∷ line) b r
        → follows_word b ≡ false
        → IsSelfInit r
        → ((not (follows_word before) && initializes_at (c ∷ line))
            || initializes_itself (c ∷ before) line)
          ≡ true
    from g k stay e s = let t = k s in rw (e, t) refl
    from {b} {r} g k (walk w) e s =
        let t = g (record { before_name = b; rest = r; place = w; is_start = e; self_init = s }) in
        rw t (or_true (not (follows_word before) && initializes_at (c ∷ line)))

-- The rule reports a line exactly where some name of letters, digits and underscores, which ends in
-- an underscore and is no part of a longer name, stands there with itself in parentheses behind it.
pub initializes_itself_iff :
    (line : Text) → (initializes_itself [] line ≡ true) ↔ Initializes [] line
initializes_itself_iff line = Initializes-from [] line
