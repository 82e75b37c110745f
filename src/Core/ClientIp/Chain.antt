-- ===== src/Core/ClientIp/Chain.antt =====
-- crates/waf-core/src/network/client_ip.rs: what `resolve` may return, and who can influence it.
use mathlib.Core.List.{map-append}
use rust_waf.Common.{
  ℕ, zero, suc, ◌+◌, ◌-◌, ◌<◌, Bool, true, false, ◌||◌, List, [], ◌∷◌, ◌++◌, map, Option, none,
  some, ◌≡◌, refl, sym, ap, ◌∙◌, ◌≢◌, ◌⊎◌, inl, inr, arith, Bytes, eq_ignore_ascii_case, ltb, ◌==◌,
  ==_iff, Bool-cases, Option-cases, length, get_elem?, any, find, keep, length-append, trim, split,
  cons_head,
}
use rust_waf.Core.Context.{IpAddr}
use rust_waf.Core.ClientIp.{
  IpSource, ResolvedClientIp, ClientIpResolver, contains, chain_of, header_value, resolve_chain,
  resolve,
}

get_elem?-split :
    {A : Type 0} (xs : List A) (i : ℕ)
    → i < length xs
    → (left : List A) × (x : A) × (right : List A) × (xs ≡ left ++ (x ∷ right))
      × (get_elem? xs i ≡ some x)
      × (i + suc (length right) ≡ length xs)
get_elem?-split [] i h = elim h [ ]
get_elem?-split (x ∷ xs) zero h = ([], x, xs, refl, refl, omega arith)
get_elem?-split (x ∷ xs) (suc i) h =
    let (left, y, right, split_at, found, count) = get_elem?-split xs i (omega arith) in
    (x ∷ left, y, right, ap (◌∷◌ x) split_at, found, omega arith)

get_elem?-append :
    {A : Type 0} (xs ys : List A) (i j : ℕ)
    → j ≡ length xs + i
    → get_elem? (xs ++ ys) j ≡ get_elem? ys i
get_elem?-append [] ys i j e = ap (get_elem? ys) {y = i} (omega arith)
get_elem?-append (x ∷ xs) ys i zero e = absurd (omega arith)
get_elem?-append (x ∷ xs) ys i (suc j) e = get_elem?-append xs ys i j (omega arith)

cons_head-append :
    (c : ℕ) (ps qs : List Bytes) → ps ≢ [] → cons_head c (ps ++ qs) ≡ cons_head c ps ++ qs
cons_head-append c [] qs h = absurd (h refl)
cons_head-append c (p ∷ ps) qs h = refl

split-ne-nil : (sep : ℕ) (s : Bytes) → split sep s ≢ []
unfolding split
split-ne-nil sep [] h = cc
split-ne-nil sep (c ∷ s) h = ground (arith, split-ne-nil sep s)

split-append : (sep : ℕ) (a b : Bytes) → split sep (a ++ (sep ∷ b)) ≡ split sep a ++ split sep b
unfolding split
split-append sep [] b = rw ((==_iff sep sep).1 refl)
split-append sep (c ∷ a) b = elim (Bool-cases (c == sep)) [
  | inl hit ↦ rw hit (ap (λ (ps : List Bytes). [] ∷ ps) (split-append sep a b))
  | inr miss ↦ rw miss (
      ap (cons_head c) (split-append sep a b)
      ∙ cons_head-append c (split sep a) (split sep b) (split-ne-nil sep a))
]

keep-append :
    {A : Type 0} (p : A → Bool) (xs ys : List A) → keep p (xs ++ ys) ≡ keep p xs ++ keep p ys
keep-append p [] ys = refl
keep-append p (x ∷ xs) ys = ground (arith, keep-append p xs ys)

-- A comma and more text in front add to the left of the chain.
chain_of-append :
    (junk value : Bytes) → chain_of (junk ++ (b',' ∷ value)) ≡ chain_of junk ++ chain_of value
unfolding chain_of
chain_of-append junk value =
    rw (split-append b',' junk value, map-append) (keep-append _ (map trim (split b',' junk)) _)

module _ (parse_addr : Bytes → Option IpAddr) (r : ClientIpResolver) (peer : IpAddr)
    (headers : List (Bytes × Bytes)) where
  abbrev pub Trusted : Type 0
  Trusted = any (λ c. contains c peer) r.trusted ≡ true

  -- `token` stands `hops` places from the right of the chain of the first matching header.
  abbrev pub AtHop : Bytes → Type 0
  AtHop token =
      (value : Bytes) × (left : List Bytes) × (right : List Bytes) × (header_value r headers
        ≡ some value)
      × (chain_of value ≡ left ++ (token ∷ right))
      × (suc (length right) ≡ r.hops)

  -- Why the result is what it is, for each source.
  abbrev pub Justified : ResolvedClientIp → IpSource → Type 0
  Justified s IpSource.direct_peer = (s.ip ≡ peer) × (any (λ c. contains c peer) r.trusted ≡ false)
  Justified s IpSource.fallback_missing_header =
      (s.ip ≡ peer) × Trusted × (header_value r headers ≡ none)
  Justified s IpSource.fallback_malformed =
      (s.ip ≡ peer)
      × Trusted
      × (((value : Bytes) × (header_value r headers ≡ some value)
            × ((r.hops ≡ 0) ⊎ (length (chain_of value) < r.hops)))
          ⊎ ((token : Bytes) × AtHop token × (parse_addr token ≡ none)))
  Justified s IpSource.trusted_header =
      Trusted × (token : Bytes) × AtHop token × (parse_addr token ≡ some s.ip)

  abbrev Result : Option ResolvedClientIp → Type 0
  Result none = ⊥
  Result (some s) = Justified s s.source

  resolve_token :
      (token value : Bytes) (left right : List Bytes) (found : Option IpAddr)
      → parse_addr token ≡ found
      → Trusted
      → header_value r headers ≡ some value
      → chain_of value ≡ left ++ (token ∷ right)
      → suc (length right) ≡ r.hops
      → Result (elim found [
        | some ip ↦ some (record { ip = ip; source = IpSource.trusted_header })
        | none ↦ some (record { ip = peer; source = IpSource.fallback_malformed })
      ])
  resolve_token token value left right none e t h c n =
      (refl, t, inr (token, (value, left, right, h, c, n), e))
  resolve_token token value left right (some ip) e t h c n =
      (t, token, (value, left, right, h, c, n), e)

  resolve_chain-Result :
      (value : Bytes)
      → Trusted
      → header_value r headers ≡ some value
      → Result (resolve_chain parse_addr r.hops peer (chain_of value))
  unfolding resolve_chain
  resolve_chain-Result value t h =
      elim (Bool-cases (r.hops == 0 || ltb (length (chain_of value)) r.hops)) [
        | inl short ↦ rw short (refl, t, inl (value, h, ground arith))
        | inr long ↦
            let (left, token, right, split_at, found, count) =
              get_elem?-split (chain_of value) (length (chain_of value) - r.hops) (ground arith) in
            rw (long, found)
              (resolve_token token value left right (parse_addr token) refl t h split_at
                (ground arith))
      ]

  resolve-Result : Result (resolve parse_addr r peer headers)
  unfolding resolve
  resolve-Result = elim (Bool-cases (any (λ c. contains c peer) r.trusted)) [
    | inr untrusted ↦ rw untrusted (refl, untrusted)
    | inl t ↦ elim (Option-cases (header_value r headers)) [
      | inl missing ↦ rw (t, missing) (refl, t, missing)
      | inr (value, h) ↦ rw (t, h) (resolve_chain-Result value t h)
    ]
  ]

  some_of :
      (o : Option ResolvedClientIp)
      → Result o
      → (s : ResolvedClientIp) × (o ≡ some s) × Justified s s.source
  some_of (some s) h = (s, refl, h)
  some_of none h = absurd h

  -- `resolve` never indexes out of range and always answers. The answer is the peer, by the source
  -- that says why, unless the peer is trusted: then it may be the address that stands
  -- `trusted_hops` places from the right of the first matching header, and no other.
  pub resolve-Justified :
      (s : ResolvedClientIp) × (resolve parse_addr r peer headers ≡ some s) × Justified s s.source
  resolve-Justified = some_of (resolve parse_addr r peer headers) resolve-Result

find-append :
    {A : Type 0} (p : A → Bool) (before rest : List A)
    → any p before ≡ false
    → find p (before ++ rest) ≡ find p rest
find-append p [] rest h = refl
find-append p (x ∷ before) rest h = elim (Bool-cases (p x)) [
  | inl hit ↦ cc (rw hit at h)
  | inr miss ↦ rw miss (find-append p before rest (rw miss at h))
]

module _ (parse_addr : Bytes → Option IpAddr) where
  resolve-untrusted :
      (r : ClientIpResolver) (peer ip : IpAddr) (headers : List (Bytes × Bytes))
      → any (λ c. contains c peer) r.trusted ≡ false
      → resolve parse_addr r peer headers
        ≢ some (record { ip = ip; source = IpSource.trusted_header })
  unfolding resolve
  resolve-untrusted r peer ip headers untrusted h = cc (rw untrusted at h)

  resolve_chain-append :
      (hops : ℕ) (peer ip : IpAddr) (extra chain : List Bytes)
      → resolve_chain parse_addr hops peer chain
        ≡ some (record { ip = ip; source = IpSource.trusted_header })
      → resolve_chain parse_addr hops peer (extra ++ chain)
        ≡ some (record { ip = ip; source = IpSource.trusted_header })
  unfolding resolve_chain
  resolve_chain-append hops peer ip extra chain h = ground (
    arith,
    length-append extra chain,
    get_elem?-append extra chain (length chain - hops) (length (extra ++ chain) - hops),
  )

  -- The answer for a trusted address, whichever headers of other names stand before and whichever
  -- headers stand behind.
  resolve-behind :
      (r : ClientIpResolver) (peer : IpAddr) (name value : Bytes)
      (before rest : List (Bytes × Bytes))
      → any (λ c. contains c peer) r.trusted ≡ true
      → any (λ (h : Bytes × Bytes). eq_ignore_ascii_case h.0 r.header) before ≡ false
      → eq_ignore_ascii_case name r.header ≡ true
      → resolve parse_addr r peer (before ++ ((name, value) ∷ rest))
        ≡ resolve_chain parse_addr r.hops peer (chain_of value)
  unfolding resolve header_value
  resolve-behind r peer name value before rest t others named =
      rw
        (
          t,
          find-append (λ (h : Bytes × Bytes). eq_ignore_ascii_case h.0 r.header) before
              ((name, value) ∷ rest) others,
          named,
        )
        refl

  -- If a header alone gives a trusted address, then the request gives it too, behind any headers of
  -- other names and before any headers; and a client that sends the header itself cannot move the
  -- answer: it is the same with any text and a comma put in front of the value.
  pub resolve-append :
      (r : ClientIpResolver) (peer ip : IpAddr) (name junk value : Bytes)
      (before rest : List (Bytes × Bytes))
      → any (λ (h : Bytes × Bytes). eq_ignore_ascii_case h.0 r.header) before ≡ false
      → eq_ignore_ascii_case name r.header ≡ true
      → resolve parse_addr r peer ((name, value) ∷ [])
        ≡ some (record { ip = ip; source = IpSource.trusted_header })
      → (resolve parse_addr r peer (before ++ ((name, value) ∷ rest))
          ≡ some (record { ip = ip; source = IpSource.trusted_header }))
        × (resolve parse_addr r peer (before ++ ((name, junk ++ (b',' ∷ value)) ∷ rest))
            ≡ some (record { ip = ip; source = IpSource.trusted_header }))
  resolve-append r peer ip name junk value before rest others named h =
      elim (Bool-cases (any (λ c. contains c peer) r.trusted)) [
        | inr untrusted ↦ absurd (resolve-untrusted r peer ip ((name, value) ∷ []) untrusted h)
        | inl t ↦
            let alone : resolve_chain parse_addr r.hops peer (chain_of value)
                ≡ some (record { ip = ip; source = IpSource.trusted_header }) =
              sym (resolve-behind r peer name value [] [] t refl named) ∙ h in
            (
              resolve-behind r peer name value before rest t others named ∙ alone,
              resolve-behind r peer name (junk ++ (b',' ∷ value)) before rest t others named
                  ∙ rw (chain_of-append junk value)
                      (resolve_chain-append r.hops peer ip (chain_of junk) (chain_of value) alone),
            )
      ]
