-- ===== src/Api/Router/Fits.antt =====
-- The paths and methods for which the patterns of internal/api/router.go name a handler.
use vpc_routing.Prelude.{
  ℕ, ◌≡◌, refl, sym, ap, Bool, true, false, ◌&&◌, Option, none, some, List, [], ◌∷◌, if◌then◌else◌,
  nat_eq, and_true, subst,
}
use vpc_routing.Model.Entities.{Uuid}
use vpc_routing.Auth.Access.{bytes_beq}
use vpc_routing.Auth.Bearer.{bytes_beq_iff}
use vpc_routing.Api.Router.{
  Method, post, get, patch, delete, connect, other, Endpoint, create_vpc, list_vpcs, get_vpc,
  delete_vpc, effective_routes, create_peering, list_peerings, get_peering, update_peering,
  delete_peering, accept_peering, reject_peering, list_routes, override_route, list_events, Target,
  Plain, serves, answers, is_get, or_invalid, v1_target, vpcs_target, vpc_target, peerings_target,
  peering_target, vpcs_word, peerings_word, effective_routes_word, accept_word, reject_word,
  routes_word, events_word,
}
use vpc_routing.Api.Router.Paths.{method_of}

module _ (parse : List ℕ → Option Uuid) where
  -- A part that is the text of an identifier.
  abbrev pub Item : List ℕ → Uuid → List (List ℕ) → Type 0
  Item word id parts = (text : List ℕ) × (parse text ≡ some id) × (parts ≡ word ∷ text ∷ [])

  abbrev pub Below : List ℕ → Uuid → List ℕ → List (List ℕ) → Type 0
  Below word id sub parts =
      (text : List ℕ) × (parse text ≡ some id)
      × ((more : List (List ℕ)) × (parts ≡ word ∷ text ∷ sub ∷ more))

  -- The parts of a path after `/v1` name the endpoint; what follows the word after a peering's
  -- identifier is not looked at.
  abbrev pub Names : Endpoint → List (List ℕ) → Type 0
  Names create_vpc parts = parts ≡ vpcs_word ∷ []
  Names list_vpcs parts = parts ≡ vpcs_word ∷ []
  Names (get_vpc id) parts = Item vpcs_word id parts
  Names (delete_vpc id) parts = Item vpcs_word id parts
  Names (effective_routes id) parts =
      (text : List ℕ) × (parse text ≡ some id)
      × (parts ≡ vpcs_word ∷ text ∷ effective_routes_word ∷ [])
  Names create_peering parts = parts ≡ peerings_word ∷ []
  Names list_peerings parts = parts ≡ peerings_word ∷ []
  Names (get_peering id) parts = Item peerings_word id parts
  Names (update_peering id) parts = Item peerings_word id parts
  Names (delete_peering id) parts = Item peerings_word id parts
  Names (accept_peering id) parts = Below peerings_word id accept_word parts
  Names (reject_peering id) parts = Below peerings_word id reject_word parts
  Names (list_routes id) parts = Below peerings_word id routes_word parts
  Names (override_route id) parts = Below peerings_word id routes_word parts
  Names (list_events id) parts = Below peerings_word id events_word parts

  abbrev pub Fits : Method → List (List ℕ) → Target → Type 0
  Fits m parts (serves e) = (m ≡ method_of e) × Names e parts
  Fits m parts (answers a) = Unit {0}

  if-Fits :
      (m : Method) (parts : List (List ℕ)) (b : Bool) (t u : Target)
      → (b ≡ true → Fits m parts t)
      → Fits m parts u
      → Fits m parts (if b then t else u)
  if-Fits m parts true t u h k = h refl
  if-Fits m parts false t u h k = k

  vpcs-Fits : (m : Method) → Fits m (vpcs_word ∷ []) (vpcs_target m)
  vpcs-Fits post = (refl, refl)
  vpcs-Fits get = (refl, refl)
  vpcs-Fits patch = tt
  vpcs-Fits delete = tt
  vpcs-Fits connect = tt
  vpcs-Fits other = tt

  peerings-Fits : (m : Method) → Fits m (peerings_word ∷ []) (peerings_target m)
  peerings-Fits post = (refl, refl)
  peerings-Fits get = (refl, refl)
  peerings-Fits patch = tt
  peerings-Fits delete = tt
  peerings-Fits connect = tt
  peerings-Fits other = tt

  is_get-only : (m : Method) → is_get m ≡ true → m ≡ get
  is_get-only get h = refl
  is_get-only post h = cc
  is_get-only patch h = cc
  is_get-only delete h = cc
  is_get-only connect h = cc
  is_get-only other h = cc

  module _ (text : List ℕ) (id : Uuid) (known : parse text ≡ some id) where
    effective-Fits :
        (m : Method) (p : List ℕ)
        → Fits m (vpcs_word ∷ text ∷ p ∷ []) (
            if bytes_beq p effective_routes_word && is_get m
            then serves (effective_routes id)
            else answers Plain.not_found)
    effective-Fits m p =
        if-Fits m (vpcs_word ∷ text ∷ p ∷ []) (bytes_beq p effective_routes_word && is_get m)
          (serves (effective_routes id)) (answers Plain.not_found)
          (λ h.
            let c = and_true (bytes_beq p effective_routes_word) (is_get m) h in
            let q = (bytes_beq_iff p effective_routes_word).0 c.0 in
            (is_get-only m c.1, (text, known, ap (λ w. vpcs_word ∷ text ∷ w ∷ []) q)))
          tt

    vpc-Fits :
        (m : Method) (qs : List (List ℕ)) → Fits m (vpcs_word ∷ text ∷ qs) (vpc_target id m qs)
    vpc-Fits get [] = (refl, (text, known, refl))
    vpc-Fits delete [] = (refl, (text, known, refl))
    vpc-Fits post [] = tt
    vpc-Fits patch [] = tt
    vpc-Fits connect [] = tt
    vpc-Fits other [] = tt
    vpc-Fits get (p ∷ []) = effective-Fits get p
    vpc-Fits delete (p ∷ []) = effective-Fits delete p
    vpc-Fits post (p ∷ []) = effective-Fits post p
    vpc-Fits patch (p ∷ []) = effective-Fits patch p
    vpc-Fits connect (p ∷ []) = effective-Fits connect p
    vpc-Fits other (p ∷ []) = effective-Fits other p
    vpc-Fits get (p ∷ q ∷ qs) = tt
    vpc-Fits delete (p ∷ q ∷ qs) = tt
    vpc-Fits post (p ∷ q ∷ qs) = tt
    vpc-Fits patch (p ∷ q ∷ qs) = tt
    vpc-Fits connect (p ∷ q ∷ qs) = tt
    vpc-Fits other (p ∷ q ∷ qs) = tt

    abbrev At : Method → List ℕ → List (List ℕ) → Target → Type 0
    At m p qs t = Fits m (peerings_word ∷ text ∷ p ∷ qs) t

    below :
        (id' : Uuid) (p word : List ℕ) (qs : List (List ℕ))
        → parse text ≡ some id'
        → p ≡ word
        → Below peerings_word id' word (peerings_word ∷ text ∷ p ∷ qs)
    below id' p word qs k q = (text, k, (qs, ap (λ w. peerings_word ∷ text ∷ w ∷ qs) q))

    switch-Fits :
        (m : Method) (p : List ℕ) (qs : List (List ℕ)) (a r o e : Target)
        → (p ≡ accept_word → At m p qs a)
        → (p ≡ reject_word → At m p qs r)
        → (p ≡ routes_word → At m p qs o)
        → (p ≡ events_word → At m p qs e)
        → At m p qs (
            if bytes_beq p accept_word
            then a
            else if bytes_beq p reject_word
            then r
            else if bytes_beq p routes_word
            then o
            else if bytes_beq p events_word
            then e
            else answers Plain.not_found)
    switch-Fits m p qs a r o e fa fr fo fe =
        let parts = peerings_word ∷ text ∷ p ∷ qs in
        if-Fits m parts (bytes_beq p accept_word) a _ (λ h. fa ((bytes_beq_iff p accept_word).0 h))
          (if-Fits m parts (bytes_beq p reject_word) r _
            (λ h. fr ((bytes_beq_iff p reject_word).0 h))
            (if-Fits m parts (bytes_beq p routes_word) o _
              (λ h. fo ((bytes_beq_iff p routes_word).0 h))
              (if-Fits m parts (bytes_beq p events_word) e _
                (λ h. fe ((bytes_beq_iff p events_word).0 h)) tt)))

    peering-Fits :
        (m : Method) (qs : List (List ℕ))
        → Fits m (peerings_word ∷ text ∷ qs) (peering_target id m qs)
    peering-Fits get [] = (refl, (text, known, refl))
    peering-Fits patch [] = (refl, (text, known, refl))
    peering-Fits delete [] = (refl, (text, known, refl))
    peering-Fits post [] = tt
    peering-Fits connect [] = tt
    peering-Fits other [] = tt
    peering-Fits get (p ∷ qs) =
        switch-Fits get p qs _ _ _ _ (λ q. tt) (λ q. tt)
          (λ q. (refl, below id p routes_word qs known q))
          (λ q. (refl, below id p events_word qs known q))
    peering-Fits post (p ∷ qs) =
        switch-Fits post p qs _ _ _ _ (λ q. (refl, below id p accept_word qs known q))
          (λ q. (refl, below id p reject_word qs known q))
          (λ q. (refl, below id p routes_word qs known q)) (λ q. tt)
    peering-Fits patch (p ∷ qs) =
        switch-Fits patch p qs _ _ _ _ (λ q. tt) (λ q. tt) (λ q. tt) (λ q. tt)
    peering-Fits delete (p ∷ qs) =
        switch-Fits delete p qs _ _ _ _ (λ q. tt) (λ q. tt) (λ q. tt) (λ q. tt)
    peering-Fits connect (p ∷ qs) =
        switch-Fits connect p qs _ _ _ _ (λ q. tt) (λ q. tt) (λ q. tt) (λ q. tt)
    peering-Fits other (p ∷ qs) =
        switch-Fits other p qs _ _ _ _ (λ q. tt) (λ q. tt) (λ q. tt) (λ q. tt)

  or_invalid-Fits :
      (m : Method) (parts : List (List ℕ)) (o : Option Uuid) (f : Uuid → Target)
      → ((id : Uuid) → o ≡ some id → Fits m parts (f id))
      → Fits m parts (or_invalid o f)
  or_invalid-Fits m parts none f h = tt
  or_invalid-Fits m parts (some id) f h = h id refl

  pub v1-Fits : (m : Method) (qs : List (List ℕ)) → Fits m qs (v1_target parse m qs)
  v1-Fits m [] = tt
  v1-Fits m (p ∷ []) =
      if-Fits m (p ∷ []) (bytes_beq p vpcs_word) (vpcs_target m) _
        (λ h.
          subst (λ w. Fits m (w ∷ []) (vpcs_target m)) (sym ((bytes_beq_iff p vpcs_word).0 h))
            (vpcs-Fits m))
        (if-Fits m (p ∷ []) (bytes_beq p peerings_word) (peerings_target m) _
          (λ h.
            subst (λ w. Fits m (w ∷ []) (peerings_target m))
              (sym ((bytes_beq_iff p peerings_word).0 h)) (peerings-Fits m))
          tt)
  v1-Fits m (p ∷ text ∷ qs) =
      if-Fits m (p ∷ text ∷ qs) (bytes_beq p vpcs_word) _ _
        (λ h.
          or_invalid-Fits m (p ∷ text ∷ qs) (parse text) (λ id. vpc_target id m qs)
            λ id known.
              subst (λ w. Fits m (w ∷ text ∷ qs) (vpc_target id m qs))
                (sym ((bytes_beq_iff p vpcs_word).0 h)) (vpc-Fits text id known m qs))
        (if-Fits m (p ∷ text ∷ qs) (bytes_beq p peerings_word) _ _
          (λ h.
            or_invalid-Fits m (p ∷ text ∷ qs) (parse text) (λ id. peering_target id m qs)
              λ id known.
                subst (λ w. Fits m (w ∷ text ∷ qs) (peering_target id m qs))
                  (sym ((bytes_beq_iff p peerings_word).0 h)) (peering-Fits text id known m qs))
          tt)
