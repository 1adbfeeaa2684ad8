-- ===== src/Text/Split/Tokens.antt =====
-- A list of visible ASCII words joined by spaces is split into the same words, and neither TrimSpace
-- nor a search for line breaks objects to it.
use one_issuer.Base.{
  ℕ, ◌≤◌, ◌<◌, ◌≡◌, refl, ap, ◌∙◌, false, List, [], ◌∷◌, ◌++◌, arith, any, All, is_empty, sym,
  subst,
}
use one_issuer.Text.{Bytes, str_eq, mem, has_prefix, join_space}
use one_issuer.Text.Split.{
  split_on, has_byte, contains_any, wide_spaces, is_ascii_space, starts_with_space, ends_with_space,
  has_outer_space,
}
use one_issuer.Text.Split.Laws.{AreParts, split_on-join_space}

-- A word: not empty, each character visible ASCII.
abbrev pub AreVisible : Bytes → Type 0
AreVisible s = All (λ c. (33 ≤ c) × (c < 127)) s

abbrev pub IsWord : Bytes → Type 0
IsWord [] = ⊥
IsWord (c ∷ s) = AreVisible (c ∷ s)

abbrev pub AreWords : List Bytes → Type 0
AreWords ws = All IsWord ws

IsWord-visible : (w : Bytes) → IsWord w → AreVisible w
IsWord-visible [] h = tt
IsWord-visible (c ∷ s) h = h

has_byte-visible : (w : Bytes) → AreVisible w → has_byte b' ' w ≡ false
unfolding has_byte
has_byte-visible [] h = refl
has_byte-visible (c ∷ s) (h, hs) = ground (arith, has_byte-visible s hs)

AreWords-AreParts : (ws : List Bytes) → AreWords ws → AreParts b' ' ws
AreWords-AreParts [] h = tt
AreWords-AreParts (w ∷ ws) (h, hs) =
    (has_byte-visible w (IsWord-visible w h), AreWords-AreParts ws hs)

-- No wide space begins with an ASCII character.
mem-wide_spaces : (c : ℕ) (s : Bytes) → c < 128 → mem (c ∷ s) wide_spaces ≡ false
unfolding mem str_eq
mem-wide_spaces c s h = ground arith

prefix-wide_spaces :
    (c : ℕ) (s : Bytes) → c < 128 → any (λ w. has_prefix (c ∷ s) w) wide_spaces ≡ false
unfolding has_prefix
prefix-wide_spaces c s h = ground arith

visible-not_space : (c : ℕ) → 33 ≤ c → c < 127 → is_ascii_space c ≡ false
unfolding is_ascii_space
visible-not_space c low high = ground arith

starts_with_space-visible :
    (c : ℕ) (s : Bytes) → 33 ≤ c → c < 127 → starts_with_space (c ∷ s) ≡ false
unfolding starts_with_space
starts_with_space-visible c s low high =
    rw (visible-not_space c low high, prefix-wide_spaces c s (omega arith)) refl

-- The last character decides, where those before it are ASCII.
ends_with_space-step :
    (c d : ℕ) (s : Bytes) → c < 128 → ends_with_space (c ∷ d ∷ s) ≡ ends_with_space (d ∷ s)
unfolding ends_with_space
ends_with_space-step c d s h = rw (mem-wide_spaces c (d ∷ s) h) refl

ends_with_space-last : (c : ℕ) → 33 ≤ c → c < 127 → ends_with_space (c ∷ []) ≡ false
unfolding ends_with_space
ends_with_space-last c low high = visible-not_space c low high

ends_with_space-word : (c : ℕ) (s : Bytes) → AreVisible (c ∷ s) → ends_with_space (c ∷ s) ≡ false
ends_with_space-word c [] (h, hs) = ends_with_space-last c h.0 h.1
ends_with_space-word c (d ∷ s) (h, hs) =
    ends_with_space-step c d s (omega arith) ∙ ends_with_space-word d s hs

ends_with_space-append :
    (s : Bytes) (d : ℕ) (t : Bytes)
    → AreVisible s
    → ends_with_space (s ++ (d ∷ t)) ≡ ends_with_space (d ∷ t)
ends_with_space-append [] d t h = refl
ends_with_space-append (c ∷ []) d t (h, hs) = ends_with_space-step c d t (omega arith)
ends_with_space-append (c ∷ e ∷ s) d t (h, hs) =
    ends_with_space-step c e (s ++ (d ∷ t)) (omega arith) ∙ ends_with_space-append (e ∷ s) d t hs

join_space-head :
    (w : Bytes) (ws : List Bytes)
    → AreWords (w ∷ ws)
    → (c : ℕ) × (s : Bytes) × (join_space (w ∷ ws) ≡ c ∷ s) × (33 ≤ c) × (c < 127)
unfolding join_space
join_space-head [] ws (h, hs) = absurd h
join_space-head (c ∷ s) [] (h, hs) = (c, s, refl, h.0.0, h.0.1)
join_space-head (c ∷ s) (v ∷ ws) (h, hs) =
    (c, s ++ (b' ' ∷ join_space (v ∷ ws)), refl, h.0.0, h.0.1)

join_space-next :
    (w v : Bytes) (ws : List Bytes) → join_space (w ∷ v ∷ ws) ≡ w ++ (b' ' ∷ join_space (v ∷ ws))
unfolding join_space
join_space-next w v ws = refl

join_space-one : (w : Bytes) → join_space (w ∷ []) ≡ w
unfolding join_space
join_space-one w = refl

ends_with_space-join_space :
    (w : Bytes) (ws : List Bytes)
    → AreWords (w ∷ ws)
    → ends_with_space (join_space (w ∷ ws)) ≡ false
ends_with_space-join_space [] ws (h, hs) = absurd h
ends_with_space-join_space (c ∷ s) [] (h, hs) =
    ap ends_with_space (join_space-one (c ∷ s)) ∙ ends_with_space-word c s h
ends_with_space-join_space (c ∷ s) (v ∷ ws) (h, hs) =
    let (d, t, e, low, high) = join_space-head v ws hs in
    ap ends_with_space (join_space-next (c ∷ s) v ws)
    ∙ ends_with_space-append (c ∷ s) b' ' (join_space (v ∷ ws)) h
    ∙ ap (λ (u : Bytes). ends_with_space (b' ' ∷ u)) e
    ∙ ends_with_space-step b' ' d t (omega arith)
    ∙ ap ends_with_space (sym e)
    ∙ ends_with_space-join_space v ws hs

-- Nothing is to be trimmed off a joined list of words.
pub has_outer_space-join_space :
    (w : Bytes) (ws : List Bytes)
    → AreWords (w ∷ ws)
    → has_outer_space (join_space (w ∷ ws)) ≡ false
unfolding has_outer_space
has_outer_space-join_space w ws h =
    let (d, t, e, low, high) = join_space-head w ws h in
    rw
      (
        ap starts_with_space e ∙ starts_with_space-visible d t low high,
        ends_with_space-join_space w ws h,
      )
      refl

abbrev IsPlain : Bytes → Type 0
IsPlain s = All (λ c. 32 ≤ c) s

All-append {ℓ κ} :
    {A : Type ℓ} (P : A → Type κ) (xs ys : List A) → All P xs → All P ys → All P (xs ++ ys)
All-append P [] ys hx hy = hy
All-append P (x ∷ xs) ys hx hy = (hx.0, All-append P xs ys hx.1 hy)

visible-IsPlain : (w : Bytes) → AreVisible w → IsPlain w
visible-IsPlain [] h = tt
visible-IsPlain (c ∷ s) (h, hs) = (omega arith, visible-IsPlain s hs)

IsPlain-nil : IsPlain (join_space [])
unfolding join_space
IsPlain-nil = tt

join_space-IsPlain : (ws : List Bytes) → AreWords ws → IsPlain (join_space ws)
join_space-IsPlain [] h = IsPlain-nil
join_space-IsPlain (w ∷ []) (h, hs) =
    subst IsPlain (sym (join_space-one w)) (visible-IsPlain w (IsWord-visible w h))
join_space-IsPlain (w ∷ v ∷ ws) (h, hs) = subst IsPlain (sym (join_space-next w v ws)) (
    All-append _ w (b' ' ∷ join_space (v ∷ ws)) (visible-IsPlain w (IsWord-visible w h))
      (omega arith, join_space-IsPlain (v ∷ ws) hs))

contains_any-IsPlain : (s : Bytes) → IsPlain s → contains_any s (9 ∷ 13 ∷ 10 ∷ []) ≡ false
unfolding contains_any
contains_any-IsPlain [] h = refl
contains_any-IsPlain (c ∷ s) (h, hs) = ground (arith, contains_any-IsPlain s hs)

pub no_line_break-join_space :
    (ws : List Bytes) → AreWords ws → contains_any (join_space ws) (9 ∷ 13 ∷ 10 ∷ []) ≡ false
no_line_break-join_space ws h = contains_any-IsPlain (join_space ws) (join_space-IsPlain ws h)

pub split_on-words :
    (w : Bytes) (ws : List Bytes) → AreWords (w ∷ ws) → split_on b' ' (join_space (w ∷ ws)) ≡ w ∷ ws
split_on-words w ws h = split_on-join_space w ws (AreWords-AreParts (w ∷ ws) h)

pub join_space-nonempty :
    (w : Bytes) (ws : List Bytes) → AreWords (w ∷ ws) → is_empty (join_space (w ∷ ws)) ≡ false
join_space-nonempty w ws h = let (d, t, e, low, high) = join_space-head w ws h in rw e refl

pub no_empty_word : (ws : List Bytes) → AreWords ws → any is_empty ws ≡ false
no_empty_word [] h = refl
no_empty_word ([] ∷ ws) (h, hs) = absurd h
no_empty_word ((c ∷ s) ∷ ws) (h, hs) = no_empty_word ws hs
