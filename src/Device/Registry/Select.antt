-- ===== src/Device/Registry/Select.antt =====
-- What the queries of the registry answer.
use speechmesh.Common.{
  String, Bool, true, ◌≡◌, ◌↔◌, ◌⊎◌, Option, none, some, arith, any, has_text, find, Option-cases,
  inl, inr, is_text_iff, ap, refl,
}
use speechmesh.Common.HashMap.{get, values}
use speechmesh.Common.HashMap.Distinct.{find-values-some, find-values-none}
use speechmesh.Core.{tts, same_domain}
use speechmesh.Device.Registry.{
  RegisteredAgent, RegistryInner, device, agent_device_id, admits, select_agent,
  select_speaker_agent, is_speaker_match,
}
use speechmesh.Device.Registry.Valid.{IsValid}

-- What a search for an agent with a property may answer: an agent with it, as it is registered, or
-- nothing, and then no registered agent has it.
abbrev pub Selects {ℓ} :
    (RegisteredAgent → Type ℓ) → RegistryInner → Option RegisteredAgent → Type ℓ
Selects P s (some a) = (get a.agent_id s.agents ≡ some a) × P a
Selects P s none = (k : String) (a : RegisteredAgent) → get k s.agents ≡ some a → ¬ P a

-- A search of the values by a Boolean test that decides a property.
pub find-Selects {ℓ} :
    (P : RegisteredAgent → Type ℓ) (p : RegisteredAgent → Bool) (s : RegistryInner)
    → IsValid s
    → ((a : RegisteredAgent) → (p a ≡ true) ↔ P a)
    → Selects P s (find p (values s.agents))
find-Selects P p s v test = elim (Option-cases (find p (values s.agents))) [
  | inl e ↦ rw e (λ k a at has. cc ((test a).1 has, find-values-none p s.agents k a e at))
  | inr (a, e) ↦
      let (k, at, pass) = find-values-some p s.agents a v.agents_distinct e in
      rw e (cc (at, v.agents_keyed k a at), (test a).0 pass)
]

-- The registry selects an agent that serves the provider, if one is registered.
pub select_agent-Selects :
    (s : RegistryInner) (provider_id : String)
    → IsValid s
    → Selects (λ a. a.provider_id ≡ some provider_id) s (select_agent s provider_id)
unfolding select_agent
select_agent-Selects s provider_id v =
    find-Selects _ _ s v (λ a. is_text_iff a.provider_id provider_id)

-- A device agent that speaks, by its labels or its domains, and is the one asked for.
pub record IsSpeaker (device_id agent_id : Option String) (a : RegisteredAgent) : Type 0 where
  pub kind : a.agent_kind ≡ device
  pub speaks :
      (has_text a.capabilities "speaker" ≡ true)
      ⊎ (any (λ d. same_domain d tts) a.capability_domains ≡ true)
  pub on_agent : (id : String) → agent_id ≡ some id → a.agent_id ≡ id
  pub on_device : (id : String) → device_id ≡ some id → agent_device_id a ≡ some id

admits_iff :
    (expected actual : Option String)
    → (admits expected actual ≡ true) ↔ ((id : String) → expected ≡ some id → actual ≡ some id)
admits_iff none actual = (λ h id e. cc, λ h. refl)
admits_iff (some x) actual =
    (λ h id e. cc ((is_text_iff actual x).0 h), λ h. (is_text_iff actual x).1 (h x refl))

is_speaker_match_iff :
    (device_id agent_id : Option String) (a : RegisteredAgent)
    → (is_speaker_match device_id agent_id a ≡ true) ↔ IsSpeaker device_id agent_id a
unfolding is_speaker_match
is_speaker_match_iff device_id agent_id a = (
  λ h. record {
    kind = ground (arith, h);
    speaks = ground (arith, h);
    on_agent =
        λ id e. some-inj ((admits_iff agent_id (some a.agent_id)).0 (ground (arith, h)) id e);
    on_device = (admits_iff device_id (agent_device_id a)).0 (ground (arith, h));
  },
  λ m. ground (
    arith,
    m.kind,
    m.speaks,
    (admits_iff agent_id (some a.agent_id)).1 (λ id e. ap some (m.on_agent id e)),
    (admits_iff device_id (agent_device_id a)).1 m.on_device,
  ),
)
  where
    some-inj : {x y : String} → some x ≡ some y → x ≡ y
    some-inj e = cc

-- The registry selects a speaker on the device and with the agent id that the call names, if one
-- is registered.
pub select_speaker_agent-Selects :
    (s : RegistryInner) (device_id agent_id : Option String)
    → IsValid s
    → Selects (IsSpeaker device_id agent_id) s (select_speaker_agent s device_id agent_id)
unfolding select_speaker_agent
select_speaker_agent-Selects s device_id agent_id v =
    find-Selects _ _ s v (is_speaker_match_iff device_id agent_id)
