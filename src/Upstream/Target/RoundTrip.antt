-- ===== src/Upstream/Target/RoundTrip.antt =====
-- Targets written as URLs and read back.
use mathlib.Core.List.{append_assoc, append-nil}
use kvmux.Prelude.{
  ◌≡◌, refl, sym, ap, ◌∙◌, ◌≢◌, ◌⊎◌, inl, inr, false, some, List, [], ◌∷◌, ◌++◌, arith, ◌==◌, All,
  Bytes, codes, ℕ, is_empty,
}
use kvmux.Upstream.Target.{
  target, strip_prefix, up_to, past, check_target, host_and_port, parse_authority, parse,
}

abbrev pub IsWithout : ℕ → Bytes → Type 0
IsWithout c bs = All (λ b. (b == c) ≡ false) bs

-- What may stand behind the port: nothing, or a path.
abbrev pub IsPath : Bytes → Type 0
IsPath path = (path ≡ []) ⊎ ((more : Bytes) × (path ≡ b'/' ∷ more))

abbrev pub url : Bytes → Bytes → Bytes → Bytes
url host port path = codes "http://" ++ (host ++ (b':' ∷ (port ++ path)))

up_to-stop : (c : ℕ) (bs rest : Bytes) → IsWithout c bs → up_to c (bs ++ (c ∷ rest)) ≡ bs
unfolding up_to
up_to-stop c [] rest h = ground arith
up_to-stop c (b ∷ bs) rest (h, hs) = rw h (ap (◌∷◌ b) (up_to-stop c bs rest hs))

up_to-all : (c : ℕ) (bs : Bytes) → IsWithout c bs → up_to c bs ≡ bs
unfolding up_to
up_to-all c [] h = refl
up_to-all c (b ∷ bs) (h, hs) = rw h (ap (◌∷◌ b) (up_to-all c bs hs))

past-stop : (c : ℕ) (bs rest : Bytes) → IsWithout c bs → past c (bs ++ (c ∷ rest)) ≡ some rest
unfolding past
past-stop c [] rest h = ground arith
past-stop c (b ∷ bs) rest (h, hs) = rw h (past-stop c bs rest hs)

All-append {ℓ κ} :
    {A : Type ℓ} (P : A → Type κ) (xs ys : List A) → All P xs → All P ys → All P (xs ++ ys)
All-append P [] ys h k = k
All-append P (x ∷ xs) ys (h, hs) k = (h, All-append P xs ys hs k)

cut-path :
    (authority path : Bytes)
    → IsWithout b'/' authority
    → IsPath path
    → up_to b'/' (authority ++ path) ≡ authority
cut-path authority path h (inl e) =
    rw e (ap (up_to b'/') (append-nil authority) ∙ up_to-all b'/' authority h)
cut-path authority path h (inr (more, e)) = rw e (up_to-stop b'/' authority more h)

nonempty : (bs : Bytes) → bs ≢ [] → is_empty bs ≡ false
nonempty [] h = elim (h refl) [ ]
nonempty (b ∷ bs) h = refl

-- A base URL with a host without colon or slash, a port without slash, neither of them empty, and a path
-- or none gives that host and port.
pub parse-url :
    (host port path : Bytes)
    → host ≢ []
    → port ≢ []
    → IsWithout b':' host
    → IsWithout b'/' host
    → IsWithout b'/' port
    → IsPath path
    → parse (url host port path) ≡ target (record { host = host; port = port })
unfolding parse strip_prefix parse_authority host_and_port check_target
parse-url host port path some_host some_port no_colon no_slash port_no_slash is_path =
    let authority = host ++ (b':' ∷ port) in
    let joined : host ++ (b':' ∷ (port ++ path)) ≡ authority ++ path =
      sym (append_assoc host (b':' ∷ port) path) in
    let plain : IsWithout b'/' authority =
      All-append (λ b. (b == b'/') ≡ false) host (b':' ∷ port) no_slash (refl, port_no_slash) in
    let cut = ap (up_to b'/') joined ∙ cut-path authority path plain is_path in
    let split : host_and_port authority ≡ record { host = host; port = port } =
      rw (host_and_port, past-stop b':' host port no_colon, up_to-stop b':' host port no_colon)
        refl in
    let full : check_target (record { host = host; port = port })
        ≡ target (record { host = host; port = port }) =
      rw (check_target, nonempty host some_host, nonempty port some_port) refl in
    ap (λ s. check_target (host_and_port s)) cut ∙ ap check_target split ∙ full
