-- ===== src/Col/LinkedList/Ring.antt =====
-- What a list in memory stands for: the addresses of its nodes in order.
use sdk_dslink_c.Prelude.{
  ℕ, ◌<◌, ◌^◌, ◌≡◌, ◌≢◌, refl, sym, ◌∙◌, true, some, List, [], ◌∷◌, ◌++◌, length, ne→==, ==_refl,
}
use sdk_dslink_c.Col.LinkedList.{Store, put}

-- From `a` through the nodes of `xs` to `b`, in both directions.
abbrev pub Segment : Store → ℕ → List ℕ → ℕ → Type 0
Segment s a [] b = (s.next a ≡ b) × (s.prev b ≡ a)
Segment s a (x ∷ xs) b = ((s.next a ≡ x) × (s.prev x ≡ a)) × Segment s x xs b

abbrev pub IsOut : ℕ → List ℕ → Type 0
IsOut a [] = Unit
IsOut a (x ∷ xs) = (a ≢ x) × IsOut a xs

abbrev pub IsDistinct : List ℕ → Type 0
IsDistinct [] = Unit
IsDistinct (x ∷ xs) = IsOut x xs × IsDistinct xs

-- Every node is allocated and says that it is in the list `l`.
abbrev pub AreOwned : Store → ℕ → List ℕ → Type 0
AreOwned s l [] = Unit
AreOwned s l (x ∷ xs) = ((s.live x ≡ true) × (s.list x ≡ some l)) × AreOwned s l xs

pub record IsRing (s : Store) (l : ℕ) (xs : List ℕ) : Type 0 where
  pub head_live : s.live l ≡ true
  pub head_list : s.list l ≡ some l
  pub outside : IsOut l xs
  pub distinct : IsDistinct xs
  pub owned : AreOwned s l xs
  pub linked : Segment s l xs l
  pub counted : s.size l ≡ length xs
  pub short : length xs < 2 ^ 64

pub put_self {ℓ} : {A : Type ℓ} (f : ℕ → A) (a : ℕ) (v : A) → put f a v a ≡ v
put_self f a v = rw (==_refl a) refl

pub put_ne {ℓ} : {A : Type ℓ} (f : ℕ → A) (a x : ℕ) (v : A) → x ≢ a → put f a v x ≡ f x
put_ne f a x v h = rw (ne→== x a h) refl

abbrev pub last_of : ℕ → List ℕ → ℕ
last_of a [] = a
last_of a (x ∷ xs) = last_of x xs

abbrev pub first_of : List ℕ → ℕ → ℕ
first_of [] b = b
first_of (x ∷ xs) b = x

pub Segment-last :
    (s : Store) (a : ℕ) (xs : List ℕ) (b : ℕ) → Segment s a xs b → s.prev b ≡ last_of a xs
Segment-last s a [] b (n, p) = p
Segment-last s a (x ∷ xs) b (e, h) = Segment-last s x xs b h

pub Segment-first :
    (s : Store) (a : ℕ) (xs : List ℕ) (b : ℕ) → Segment s a xs b → s.next a ≡ first_of xs b
Segment-first s a [] b (n, p) = n
Segment-first s a (x ∷ xs) b ((n, p), h) = n

pub Segment-split :
    (s : Store) (a : ℕ) (us : List ℕ) (x : ℕ) (vs : List ℕ) (b : ℕ)
    → Segment s a (us ++ (x ∷ vs)) b
    → Segment s a us x × Segment s x vs b
Segment-split s a [] x vs b (e, h) = (e, h)
Segment-split s a (u ∷ us) x vs b (e, h) = let (l, r) = Segment-split s u us x vs b h in ((e, l), r)

pub Segment-join :
    (s : Store) (a : ℕ) (us : List ℕ) (x : ℕ) (vs : List ℕ) (b : ℕ)
    → Segment s a us x
    → Segment s x vs b
    → Segment s a (us ++ (x ∷ vs)) b
Segment-join s a [] x vs b l r = (l, r)
Segment-join s a (u ∷ us) x vs b (e, l) r = (e, Segment-join s u us x vs b l r)

-- A segment does not change while its links do not.
abbrev pub AgreeOn {ℓ} : {A : Type ℓ} → (ℕ → A) → (ℕ → A) → List ℕ → Type ℓ
AgreeOn f g [] = Unit
AgreeOn f g (x ∷ xs) = (f x ≡ g x) × AgreeOn f g xs

pub Segment-same :
    (s t : Store) (a : ℕ) (xs : List ℕ) (b : ℕ)
    → AgreeOn t.next s.next (a ∷ xs)
    → AgreeOn t.prev s.prev xs
    → t.prev b ≡ s.prev b
    → Segment s a xs b
    → Segment t a xs b
Segment-same s t a [] b (n, _) _ p (hn, hp) = (n ∙ hn, p ∙ hp)
Segment-same s t a (x ∷ xs) b (n, ns) (p, ps) q ((hn, hp), h) =
    ((n ∙ hn, p ∙ hp), Segment-same s t x xs b ns ps q h)

pub AreOwned-same :
    (s t : Store) (l : ℕ) (xs : List ℕ)
    → AgreeOn t.live s.live xs
    → AgreeOn t.list s.list xs
    → AreOwned s l xs
    → AreOwned t l xs
AreOwned-same s t l [] a b h = tt
AreOwned-same s t l (x ∷ xs) (a, sa) (b, sb) ((hl, hs), h) =
    ((a ∙ hl, b ∙ hs), AreOwned-same s t l xs sa sb h)

pub AgreeOn-refl {ℓ} : {A : Type ℓ} (f : ℕ → A) (xs : List ℕ) → AgreeOn f f xs
AgreeOn-refl f [] = tt
AgreeOn-refl f (x ∷ xs) = (refl, AgreeOn-refl f xs)

pub AgreeOn-put {ℓ} :
    {A : Type ℓ} (f g : ℕ → A) (a : ℕ) (v : A) (xs : List ℕ)
    → IsOut a xs
    → AgreeOn f g xs
    → AgreeOn (put f a v) g xs
AgreeOn-put f g a v [] h k = tt
AgreeOn-put f g a v (x ∷ xs) (ne, h) (e, k) =
    (put_ne f a x v (λ i. ne (sym i)) ∙ e, AgreeOn-put f g a v xs h k)

-- Parts of a list without repetition.
pub IsOut-append : (a : ℕ) (us vs : List ℕ) → IsOut a us → IsOut a vs → IsOut a (us ++ vs)
IsOut-append a [] vs h k = k
IsOut-append a (u ∷ us) vs (ne, h) k = (ne, IsOut-append a us vs h k)

pub IsOut-parts : (a : ℕ) (us vs : List ℕ) → IsOut a (us ++ vs) → IsOut a us × IsOut a vs
IsOut-parts a [] vs h = (tt, h)
IsOut-parts a (u ∷ us) vs (ne, h) = let (l, r) = IsOut-parts a us vs h in ((ne, l), r)

pub AreOwned-append :
    (s : Store) (l : ℕ) (us vs : List ℕ)
    → AreOwned s l us
    → AreOwned s l vs
    → AreOwned s l (us ++ vs)
AreOwned-append s l [] vs h k = k
AreOwned-append s l (u ∷ us) vs (e, h) k = (e, AreOwned-append s l us vs h k)

pub AreOwned-parts :
    (s : Store) (l : ℕ) (us vs : List ℕ)
    → AreOwned s l (us ++ vs)
    → AreOwned s l us × AreOwned s l vs
AreOwned-parts s l [] vs h = (tt, h)
AreOwned-parts s l (u ∷ us) vs (e, h) = let (p, r) = AreOwned-parts s l us vs h in ((e, p), r)

-- Taking `x` out of the middle.
pub IsDistinct-middle :
    (us : List ℕ) (x : ℕ) (vs : List ℕ)
    → IsDistinct (us ++ (x ∷ vs))
    → IsDistinct (us ++ vs) × (IsOut x us × IsOut x vs)
IsDistinct-middle [] x vs (h, k) = (k, (tt, h))
IsDistinct-middle (u ∷ us) x vs (h, k) =
    let (d, (l, r)) = IsDistinct-middle us x vs k in
    let (hu, (ne, hv)) = IsOut-parts u us (x ∷ vs) h in
    ((IsOut-append u us vs hu hv, d), (((λ e. ne (sym e)), l), r))

pub IsDistinct-end :
    (xs : List ℕ) (x : ℕ) → IsDistinct xs → IsOut x xs → IsDistinct (xs ++ (x ∷ []))
IsDistinct-end [] x d h = (tt, tt)
IsDistinct-end (y ∷ ys) x (hy, d) (ne, h) =
    (IsOut-append y ys (x ∷ []) hy ((λ e. ne (sym e)), tt), IsDistinct-end ys x d h)
