-- ===== src/Sbi/Router.antt =====
-- What the router has for accepted services (internal/sbi/server.go).
use chf.Base.{
  ℕ, ◌≡◌, ◌≢◌, refl, sym, ap, ◌∙◌, inl, inr, arith, Bool, true, false, ◌&&◌, not, append_assoc,
  List, [], ◌∷◌, ◌++◌, Option, some, All, get_elem?,
}
use mathlib.Core.Path.{subst}
use mathlib.Core.Option.{some-injective}
use chf.Base.Decimal.{Text}
use chf.Base.Maps.{text_eq, text_eq_refl}
use chf.Config.Validate.{converged_charging, offline_only_charging, spending_limit_control}
use chf.Config.Accepted.{IsService}
use chf.Sbi.Routes.{
  Method, get, post, put, delete, Registered, Route, apply_routes, group_of, new_router,
  converged_charging_routes, offline_only_charging_routes, spending_limit_control_routes,
}

-- No two routes have the same method and the same path.
abbrev AreTwo : Registered → Registered → Type 0
AreTwo r q = ¬ ((r.method ≡ q.method) × (r.path ≡ q.path))

abbrev pub AreApart : List Registered → Type 0
AreApart [] = Unit
AreApart (r ∷ routes) = All (AreTwo r) routes × AreApart routes

-- No name comes twice.
abbrev pub AreDistinct : List Text → Type 0
AreDistinct [] = Unit
AreDistinct (name ∷ names) = All (λ m. name ≢ m) names × AreDistinct names

All-append : {A : Type 0} (P : A → Type 0) (xs ys : List A) → All P xs → All P ys → All P (xs ++ ys)
All-append P [] ys h k = k
All-append P (x ∷ xs) ys h k = (h.0, All-append P xs ys (h.1) k)

All-map :
    {A : Type 0} (P Q : A → Type 0) (xs : List A) → ((x : A) → P x → Q x) → All P xs → All Q xs
All-map P Q [] f h = tt
All-map P Q (x ∷ xs) f h = (f x (h.0), All-map P Q xs f (h.1))

AreApart-append :
    (xs ys : List Registered)
    → AreApart xs
    → AreApart ys
    → All (λ x. All (AreTwo x) ys) xs
    → AreApart (xs ++ ys)
AreApart-append [] ys h k across = k
AreApart-append (x ∷ xs) ys h k across =
    (All-append (AreTwo x) xs ys (h.0) (across.0), AreApart-append xs ys (h.1) k (across.1))

abbrev is_method : Method → Method → Bool
is_method get get = true
is_method post post = true
is_method put put = true
is_method delete delete = true
is_method m n = false

is_method_refl : (m : Method) → is_method m m ≡ true
is_method_refl get = refl
is_method_refl post = refl
is_method_refl put = refl
is_method_refl delete = refl

abbrev same_route : Registered → Registered → Bool
same_route r q = is_method r.method q.method && text_eq r.path q.path

same_route-AreTwo : (r q : Registered) → same_route r q ≡ false → AreTwo r q
same_route-AreTwo r q h (e, e') =
    let m = sym (ap (is_method r.method) e) ∙ is_method_refl r.method in
    let t = sym (ap (text_eq r.path) e') ∙ text_eq_refl r.path in absurd (ground (arith, m, t))

abbrev differs : Registered → List Registered → Bool
differs r [] = true
differs r (q ∷ routes) = not (same_route r q) && differs r routes

abbrev all_apart : List Registered → Bool
all_apart [] = true
all_apart (r ∷ routes) = differs r routes && all_apart routes

differs-All :
    (r : Registered) (routes : List Registered) → differs r routes ≡ true → All (AreTwo r) routes
differs-All r [] h = tt
differs-All r (q ∷ routes) h =
    (same_route-AreTwo r q (ground arith), differs-All r routes (ground arith))

all_apart-AreApart : (routes : List Registered) → all_apart routes ≡ true → AreApart routes
all_apart-AreApart [] h = tt
all_apart-AreApart (r ∷ routes) h =
    (differs-All r routes (ground arith), all_apart-AreApart routes (ground arith))

-- The path of a route begins with the name of its service.
abbrev pub IsOf : Text → Registered → Type 0
IsOf name r = (rest : Text) × (r.path ≡ b'/' ∷ (name ++ rest)) × (r.service ≡ name)

apply_routes-IsOf :
    (name version : Text) (routes : List Route)
    → All (IsOf name) (apply_routes (b'/' ∷ (name ++ version)) name routes)
unfolding apply_routes
apply_routes-IsOf name version [] = tt
apply_routes-IsOf name version (r ∷ routes) = (
  (version ++ r.pattern_text, ap (λ t. b'/' ∷ t) (append_assoc name version r.pattern_text), refl),
  apply_routes-IsOf name version routes,
)

module _ (name : Text) where
  -- The routes of one service.
  abbrev IsGroup : Type 0
  IsGroup = All (IsOf name) (group_of name) × AreApart (group_of name)

abbrev version_3 : Text
version_3 = b'/' ∷ b'v' ∷ b'3' ∷ []

abbrev version_1 : Text
version_1 = b'/' ∷ b'v' ∷ b'1' ∷ []

group_of-IsGroup : (name : Text) → IsService name → IsGroup name
unfolding group_of text_eq apply_routes converged_charging_routes offline_only_charging_routes
    spending_limit_control_routes
group_of-IsGroup name (inl e) = subst IsGroup (sym e) (
  apply_routes-IsOf converged_charging version_3 converged_charging_routes,
  all_apart-AreApart (group_of converged_charging) refl,
)
group_of-IsGroup name (inr (inl e)) = subst IsGroup (sym e) (
  apply_routes-IsOf offline_only_charging version_1 offline_only_charging_routes,
  all_apart-AreApart (group_of offline_only_charging) refl,
)
group_of-IsGroup name (inr (inr e)) = subst IsGroup (sym e) (
  apply_routes-IsOf spending_limit_control version_1 spending_limit_control_routes,
  all_apart-AreApart (group_of spending_limit_control) refl,
)

-- The character behind "nchf-" tells the services apart.
abbrev letter : Text → Option ℕ
letter name = get_elem? name 5

letter-append : (name rest : Text) → IsService name → letter (name ++ rest) ≡ letter name
letter-append name rest (inl e) = subst (λ n. letter (n ++ rest) ≡ letter n) (sym e) refl
letter-append name rest (inr (inl e)) = subst (λ n. letter (n ++ rest) ≡ letter n) (sym e) refl
letter-append name rest (inr (inr e)) = subst (λ n. letter (n ++ rest) ≡ letter n) (sym e) refl

other_letter : (i j : ℕ) → i ≢ j → ◌≡◌ {A = Option ℕ} (some i) (some j) → ⊥
other_letter i j h e = h (some-injective i j e)

letter_inj : (n m : Text) → IsService n → IsService m → letter n ≡ letter m → n ≡ m
letter_inj n m (inl p) (inl q) e = p ∙ sym q
letter_inj n m (inl p) (inr (inl q)) e =
    absurd (other_letter b'c' b'o' (omega arith) (sym (ap letter p) ∙ e ∙ ap letter q))
letter_inj n m (inl p) (inr (inr q)) e =
    absurd (other_letter b'c' b's' (omega arith) (sym (ap letter p) ∙ e ∙ ap letter q))
letter_inj n m (inr (inl p)) (inl q) e =
    absurd (other_letter b'o' b'c' (omega arith) (sym (ap letter p) ∙ e ∙ ap letter q))
letter_inj n m (inr (inl p)) (inr (inl q)) e = p ∙ sym q
letter_inj n m (inr (inl p)) (inr (inr q)) e =
    absurd (other_letter b'o' b's' (omega arith) (sym (ap letter p) ∙ e ∙ ap letter q))
letter_inj n m (inr (inr p)) (inl q) e =
    absurd (other_letter b's' b'c' (omega arith) (sym (ap letter p) ∙ e ∙ ap letter q))
letter_inj n m (inr (inr p)) (inr (inl q)) e =
    absurd (other_letter b's' b'o' (omega arith) (sym (ap letter p) ∙ e ∙ ap letter q))
letter_inj n m (inr (inr p)) (inr (inr q)) e = p ∙ sym q

letter-path : (n : Text) (r : Registered) → IsService n → IsOf n r → get_elem? r.path 6 ≡ letter n
letter-path n r known (rest, path, service) =
    ap (λ t. get_elem? t 6) path ∙ letter-append n rest known

IsOf-AreTwo :
    (n m : Text) (r q : Registered)
    → IsService n
    → IsService m
    → n ≢ m
    → IsOf n r
    → IsOf m q
    → AreTwo r q
IsOf-AreTwo n m r q known known' differ of of' (e, e') = differ (
    letter_inj n m known known'
      (sym (letter-path n r known of) ∙ ap (λ t. get_elem? t 6) e' ∙ letter-path m q known' of'))

-- A route of one service is apart from those of others.
apart-from :
    (n : Text) (r : Registered) (names : List Text)
    → IsService n
    → IsOf n r
    → All IsService names
    → All (λ m. n ≢ m) names
    → All (AreTwo r) (new_router names)
unfolding new_router
apart-from n r [] known of all_known differ = tt
apart-from n r (m ∷ names) known of all_known differ =
    All-append (AreTwo r) (group_of m) (new_router names)
      (All-map (IsOf m) (AreTwo r) (group_of m)
        (λ q. IsOf-AreTwo n m r q known (all_known.0) (differ.0) of)
        ((group_of-IsGroup m (all_known.0)).0))
      (apart-from n r names known of (all_known.1) (differ.1))

new_router-AreApart :
    (names : List Text) → All IsService names → AreDistinct names → AreApart (new_router names)
unfolding new_router
new_router-AreApart [] known distinct = tt
new_router-AreApart (n ∷ names) known distinct =
    let group = group_of-IsGroup n (known.0) in
    AreApart-append (group_of n) (new_router names) (group.1)
      (new_router-AreApart names (known.1) (distinct.1))
      (All-map (IsOf n) (λ r. All (AreTwo r) (new_router names)) (group_of n)
        (λ r of. apart-from n r names (known.0) of (known.1) (distinct.0)) (group.0))

-- A token is checked for the service that the path begins with.
abbrev pub IsGuarded : Registered → Type 0
IsGuarded r = (rest : Text) × (r.path ≡ b'/' ∷ (r.service ++ rest))

IsOf-IsGuarded : (n : Text) (r : Registered) → IsOf n r → IsGuarded r
IsOf-IsGuarded n r (rest, path, service) = (rest, path ∙ ap (λ s. b'/' ∷ (s ++ rest)) (sym service))

new_router-IsGuarded : (names : List Text) → All IsService names → All IsGuarded (new_router names)
unfolding new_router
new_router-IsGuarded [] known = tt
new_router-IsGuarded (n ∷ names) known =
    All-append IsGuarded (group_of n) (new_router names)
      (All-map (IsOf n) IsGuarded (group_of n) (IsOf-IsGuarded n)
        ((group_of-IsGroup n (known.0)).0))
      (new_router-IsGuarded names (known.1))

-- Where each name of a list is one of the three services and none comes twice, no two routes of
-- the router have the same method and the same path, and the token is checked for the service
-- whose name the path begins with.
pub new_router_routes :
    (names : List Text)
    → All IsService names
    → AreDistinct names
    → AreApart (new_router names) × All IsGuarded (new_router names)
new_router_routes names known distinct =
    (new_router-AreApart names known distinct, new_router-IsGuarded names known)
