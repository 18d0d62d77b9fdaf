-- ===== src/Gateway/Server/BodyLaws.antt =====
-- The body of an exposure determines every configured value (server.go, exposureBody).
use kube_secret_gateway.Base.{
  true, Text, List, [], ◌∷◌, ◌++◌, none, ◌≡◌, ◌↔◌, refl, arith, All, contains, contains→In,
  In→contains, All-In, text_eq, text_compare, lookup, ◌∙◌, inl, inr, sym,
}
use mathlib.Core.List.{append_assoc}
use kube_secret_gateway.Base.Sorting.{sort, contains-sort}
use kube_secret_gateway.Base64.{encode}
use kube_secret_gateway.Base64.Laws.{IsBytes, encode_inj, cut_unique, encode-Lacks_quote}
use kube_secret_gateway.Gateway.Auth.{value_or_nil}
use kube_secret_gateway.Gateway.Server.Body.{
  first_missing, member, more_members, members, exposure_body,
}

-- Every value of the Secret is made of bytes.
abbrev pub IsSecretData : List (Text × Text) → Type 0
IsSecretData = All (λ kv. IsBytes kv.1)

value_or_nil-IsBytes :
    (m : List (Text × Text)) (k : Text) → IsSecretData m → IsBytes (value_or_nil k m)
unfolding value_or_nil lookup
value_or_nil-IsBytes [] k h = tt
value_or_nil-IsBytes ((j, v) ∷ m) k (hv, h) = ground (arith, value_or_nil-IsBytes m k h)

append_cancel : (k x y : Text) → k ++ x ≡ k ++ y → x ≡ y
append_cancel [] x y e = e
append_cancel (a ∷ k) x y e = append_cancel k x y (ground arith)

member-append :
    (m : List (Text × Text)) (k r : Text)
    → member m k ++ r
      ≡ b'"' ∷ (k ++ (b'"' ∷ b':' ∷ b'"' ∷ (encode (value_or_nil k m) ++ (b'"' ∷ r))))
unfolding member
member-append m k r = simp append_assoc

-- A member with what follows it determines the value and the rest.
member_inj :
    (m n : List (Text × Text)) (k r s : Text)
    → IsSecretData m
    → IsSecretData n
    → member m k ++ r ≡ member n k ++ s
    → (value_or_nil k m ≡ value_or_nil k n) × (r ≡ s)
member_inj m n k r s hm hn e =
    let hv = value_or_nil-IsBytes m k hm in
    let hw = value_or_nil-IsBytes n k hn in
    let same : b'"' ∷ b':' ∷ b'"' ∷ (encode (value_or_nil k m) ++ (b'"' ∷ r))
        ≡ b'"' ∷ b':' ∷ b'"' ∷ (encode (value_or_nil k n) ++ (b'"' ∷ s)) =
      append_cancel k _ _ (ground (arith, member-append m k r, member-append n k s)) in
    let cut =
      cut_unique b'"' (encode (value_or_nil k m)) (encode (value_or_nil k n)) r s
        (encode-Lacks_quote _ hv) (encode-Lacks_quote _ hw) (ground arith) in
    (encode_inj _ _ hv hw cut.0, cut.1)

-- Two Secrets give a key the same value.
abbrev pub Agree : List (Text × Text) → List (Text × Text) → Text → Type 0
Agree m n k = value_or_nil k m ≡ value_or_nil k n

more_members_inj :
    (m n : List (Text × Text)) (ks : List Text) (r s : Text)
    → IsSecretData m
    → IsSecretData n
    → more_members m ks ++ r ≡ more_members n ks ++ s
    → All (Agree m n) ks
unfolding more_members
more_members_inj m n [] r s hm hn e = tt
more_members_inj m n (k ∷ ks) r s hm hn e =
    let (here, later) = member_inj m n k (more_members m ks ++ r) (more_members n ks ++ s) hm hn (
      ground (
        arith,
        append_assoc (member m k) (more_members m ks) r,
        append_assoc (member n k) (more_members n ks) s,
      )) in
    (here, more_members_inj m n ks r s hm hn later)

members_inj :
    (m n : List (Text × Text)) (ks : List Text) (r s : Text)
    → IsSecretData m
    → IsSecretData n
    → members m ks ++ r ≡ members n ks ++ s
    → All (Agree m n) ks
unfolding members
members_inj m n [] r s hm hn e = tt
members_inj m n (k ∷ ks) r s hm hn e =
    let (here, later) = member_inj m n k (more_members m ks ++ r) (more_members n ks ++ s) hm hn (
      ground (
        arith,
        append_assoc (member m k) (more_members m ks) r,
        append_assoc (member n k) (more_members n ks) s,
      )) in
    (here, more_members_inj m n ks r s hm hn later)

member_cong : (m n : List (Text × Text)) (k : Text) → Agree m n k → member m k ≡ member n k
unfolding member
member_cong m n k h = rw h

more_members_cong :
    (m n : List (Text × Text)) (ks : List Text)
    → All (Agree m n) ks
    → more_members m ks ≡ more_members n ks
unfolding more_members
more_members_cong m n [] h = refl
more_members_cong m n (k ∷ ks) h = rw (member_cong m n k h.0, more_members_cong m n ks h.1)

members_cong :
    (m n : List (Text × Text)) (ks : List Text) → All (Agree m n) ks → members m ks ≡ members n ks
unfolding members
members_cong m n [] h = refl
members_cong m n (k ∷ ks) h = rw (member_cong m n k h.0, more_members_cong m n ks h.1)

-- A predicate carries over between lists with the same members.
All-contains :
    (P : Text → Type 0) (xs ys : List Text)
    → ((k : Text) → contains ys k ≡ true → contains xs k ≡ true)
    → All P xs
    → All P ys
All-contains P xs [] sub h = tt
All-contains P xs (y ∷ ys) sub h = (
  All-In P xs y h (contains→In xs y (sub y (In→contains (y ∷ ys) y (inl refl)))),
  All-contains P xs ys (λ k c. sub k (In→contains (y ∷ ys) k (inr (contains→In ys k c)))) h,
)

-- For two Secrets that hold bytes and have every configured key, the bodies of an exposure are
-- equal exactly if the values of all configured keys are.
pub exposure_body-eq_iff :
    (m n : List (Text × Text)) (configured : List Text)
    → IsSecretData m
    → IsSecretData n
    → first_missing m configured ≡ none
    → first_missing n configured ≡ none
    → ((exposure_body m configured).1 ≡ (exposure_body n configured).1)
      ↔ All (λ k. value_or_nil k m ≡ value_or_nil k n) configured
unfolding exposure_body
exposure_body-eq_iff m n configured hm hn em en =
    let keys = sort text_compare configured in
    let listed : (k : Text) → contains keys k ≡ contains configured k =
      λ k. contains-sort text_compare k configured in
    (
      λ e.
          All-contains (Agree m n) keys configured (λ k c. listed k ∙ c)
            (members_inj m n keys (b'}' ∷ []) (b'}' ∷ []) hm hn (ground arith)),
      λ h. ground (
        arith,
        members_cong m n keys
            (All-contains (Agree m n) configured keys (λ k c. sym (listed k) ∙ c) h),
      ),
    )
