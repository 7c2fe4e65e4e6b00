-- ===== src/Proxy/TrustState/Storage/Canonical.antt =====
-- The entries that the loads give: a save and a load leave them as they are.
use clawdentity.Shared.{
  String, false, ◌≡◌, refl, ap, ◌∙◌, Option, none, some, ◌∷◌, ◌>>=◌, subst, arith,
}
use clawdentity.Shared.Text.{trim, is_empty, trim-trim}
use clawdentity.Shared.Json.{Value, text, number, object, fields, member, non_empty_string}
use clawdentity.Proxy.Trust.Types.{ok, PeerProfile, PairingTicketPayload}
use clawdentity.Proxy.TrustState.Utils.{
  Url, Outside, web_origin, parse_proxy_origin, parse_peer_profile,
}
use clawdentity.Proxy.TrustState.Storage.Entries.{optional_field, peer_profile_value}

abbrev pub IsFilled : String → Type 0
IsFilled s = is_empty (trim s) ≡ false

-- What the object relies on: the origin of a URL is a URL with the same origin, and a ticket that is
-- accepted is not blank and has an issuer.
pub record IsLawful (outside : Outside) : Type 0 where
  pub origin_again :
      (s o : String)
      → (outside.parse_url s >>= web_origin) ≡ some o
      → ((outside.parse_url (trim o) >>= web_origin) ≡ some o) × IsFilled o
  pub ticket_filled :
      (s : String) (p : PairingTicketPayload)
      → outside.tickets.parse_pairing_ticket s ≡ ok p
      → IsFilled s × IsFilled p.iss

pub non_empty_string-text : (s : String) → IsFilled s → non_empty_string (some (text s)) ≡ some s
unfolding non_empty_string
non_empty_string-text s h = rw h refl

pub non_empty_string-IsFilled :
    (v : Option Value) (s : String) → non_empty_string v ≡ some s → IsFilled s
unfolding non_empty_string
non_empty_string-IsFilled (some (text t)) s h = ground (arith, h)
non_empty_string-IsFilled none s h = cc
non_empty_string-IsFilled (some Value.null) s h = cc
non_empty_string-IsFilled (some (Value.bool b)) s h = cc
non_empty_string-IsFilled (some (number n)) s h = cc
non_empty_string-IsFilled (some (Value.array vs)) s h = cc
non_empty_string-IsFilled (some (object fs)) s h = cc

-- Inversion of a chain's step.
pub >>=-eq-some {ℓ κ} :
    {A : Type ℓ} {B : Type κ} (o : Option A) (f : A → Option B) {b : B}
    → (o >>= f) ≡ some b
    → (a : A) × (o ≡ some a) × (f a ≡ some b)
>>=-eq-some none f h = cc
>>=-eq-some (some a) f h = (a, refl, h)

pub some_inj {ℓ} : {A : Type ℓ} (a b : A) → some a ≡ some b → a ≡ b
some_inj a b h = cc

-- The `proxyOrigin` of a profile that was parsed.
abbrev pub IsOrigin : Outside → Option String → Type 0
IsOrigin outside none = Unit
IsOrigin outside (some o) = ((outside.parse_url (trim o) >>= web_origin) ≡ some o) × IsFilled o

pub record IsProfile (outside : Outside) (p : PeerProfile) : Type 0 where
  pub agent : (trim p.agent_name ≡ p.agent_name) × IsFilled p.agent_name
  pub human : (trim p.human_name ≡ p.human_name) × IsFilled p.human_name
  pub origin : IsOrigin outside p.proxy_origin

pub trimmed : (s : String) → IsFilled s → (trim (trim s) ≡ trim s) × IsFilled (trim s)
trimmed s h = (trim-trim s, ap is_empty (trim-trim s) ∙ h)

module _ (outside : Outside) (lawful : IsLawful outside) where
  parse_proxy_origin-IsOrigin :
      (v : Option Value) (o : Option String)
      → parse_proxy_origin outside.parse_url v ≡ some o
      → IsOrigin outside o
  unfolding parse_proxy_origin
  parse_proxy_origin-IsOrigin none o h = subst (IsOrigin outside) (some_inj none o h) tt
  parse_proxy_origin-IsOrigin (some v) o h =
      let (s, hs, h1) = >>=-eq-some (non_empty_string (some v)) _ h in
      let (url, hu, h2) = >>=-eq-some (outside.parse_url (trim s)) _ h1 in
      let (origin, ho, h3) = >>=-eq-some (web_origin url) _ h2 in
      subst (IsOrigin outside) (some_inj (some origin) o h3)
        (lawful.origin_again (trim s) origin (ap (λ u. u >>= web_origin) hu ∙ ho))

  pub parse_peer_profile-IsProfile :
      (v : Option Value) (p : PeerProfile)
      → parse_peer_profile outside.parse_url v ≡ some p
      → IsProfile outside p
  unfolding parse_peer_profile
  parse_peer_profile-IsProfile v p h =
      let (agent, ha, h1) = >>=-eq-some (non_empty_string (member v "agentName")) _ h in
      let (human, hh, h2) = >>=-eq-some (non_empty_string (member v "humanName")) _ h1 in
      let (origin, ho, h3) =
        >>=-eq-some (parse_proxy_origin outside.parse_url (member v "proxyOrigin")) _ h2 in
      subst (IsProfile outside) (some_inj _ p h3) (record {
        agent = trimmed agent (non_empty_string-IsFilled _ agent ha);
        human = trimmed human (non_empty_string-IsFilled _ human hh);
        origin = parse_proxy_origin-IsOrigin (member v "proxyOrigin") origin ho;
      })

module _ (outside : Outside) where
  origin_reread :
      (o : String)
      → IsOrigin outside (some o)
      → parse_proxy_origin outside.parse_url (some (text o)) ≡ some (some o)
  unfolding parse_proxy_origin
  origin_reread o (again, filled) =
      rw (non_empty_string-text o filled) (by_url (outside.parse_url (trim o)) again)
    where
      by_url :
          (u : Option Url)
          → (u >>= web_origin) ≡ some o
          → (u >>= λ url. web_origin url >>= λ x. some (some x)) ≡ some (some o)
      by_url none h = cc
      by_url (some url) h = rw h refl

  -- A parsed profile is parsed again from the value that is stored for it.
  pub profile_reread :
      (p : PeerProfile)
      → IsProfile outside p
      → parse_peer_profile outside.parse_url (some (peer_profile_value p)) ≡ some p
  unfolding parse_peer_profile peer_profile_value member
  profile_reread p h = by_origin p.proxy_origin refl h.origin
    where
      by_origin :
          (o : Option String)
          → p.proxy_origin ≡ o
          → IsOrigin outside o
          → parse_peer_profile outside.parse_url (
              some (
                object (
                  fields (
                    ("agentName", text p.agent_name)
                    ∷ (("humanName", text p.human_name) ∷ optional_field "proxyOrigin" o)))))
            ≡ some p
      by_origin none e k =
          rw
            (
              non_empty_string-text p.agent_name h.agent.1,
              non_empty_string-text p.human_name h.human.1,
            )
            (ground (arith, e, h.agent.0, h.human.0))
      by_origin (some o) e k =
          rw
            (
              non_empty_string-text p.agent_name h.agent.1,
              non_empty_string-text p.human_name h.human.1,
              origin_reread o k,
            )
            (ground (arith, e, h.agent.0, h.human.0))
