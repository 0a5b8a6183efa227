-- ===== src/Sessions/Shared.antt =====
-- A second channel at the endpoint of another.
use atp.Common.{
  ℕ, ◌<◌, ◌^◌, ◌≡◌, ◌≢◌, refl, sym, ap, ◌∙◌, subst, true, false, none, some, List, ◌∷◌, arith, ◌⊎◌,
  inl, inr, Bool-cases, Option-cases, suc, drop,
}
use atp.Common.Int.{ℤ, pos, negsuc}
use atp.Common.Eq.{int_eq, eq}
use atp.Common.Map.{Map, find, assign, find-assign_self, find-assign}
use atp.Common.Split.{free}
use atp.Common.Text.{Str, str_eq, decimal, value_from, value-digits}
use atp.Contracts.{print_int}
use atp.Sessions.{SessionSetting}
use atp.Sessions.Initiator.{Initiator, new_initiator, inproc, with_publisher, publish, push}
use atp.Sessions.Flags.{free-digits}
use atp.Sessions.Served.{publish-shared}

-- An int.
abbrev pub IsInt : ℤ → Type 0
IsInt (pos n) = n < 2 ^ 31
IsInt (negsuc n) = n < 2 ^ 31

value-decimal : (n : ℕ) → n < 2 ^ 32 → value_from 0 (decimal n) ≡ n
value-decimal n h = value-digits 20 n (omega arith)

decimal-injective : (n m : ℕ) → n < 2 ^ 32 → m < 2 ^ 32 → decimal n ≡ decimal m → n ≡ m
decimal-injective n m h k e = sym (value-decimal n h) ∙ ap (value_from 0) e ∙ value-decimal m k

unsigned : (n : ℕ) (s : Str) → decimal n ≢ b'-' ∷ s
unsigned n s e =
    let bad : true ≡ false = sym (free-digits b'-' 20 n (inl (omega arith))) ∙ ap (free b'-') e in
    cc bad

print_int-injective : (a b : ℤ) → IsInt a → IsInt b → print_int a ≡ print_int b → a ≡ b
print_int-injective (pos n) (pos m) h k e =
    ap pos (decimal-injective n m (omega arith) (omega arith) e)
print_int-injective (pos n) (negsuc m) h k e = absurd (unsigned n _ e)
print_int-injective (negsuc n) (pos m) h k e = absurd (unsigned m _ (sym e))
print_int-injective (negsuc n) (negsuc m) h k e =
    let same : suc n ≡ suc m =
      decimal-injective (suc n) (suc m) (omega arith) (omega arith) (ap (drop 1) e) in
    ap negsuc (omega (arith, same))

inproc-injective : (a b : ℤ) → IsInt a → IsInt b → inproc a ≡ inproc b → a ≡ b
inproc-injective a b h k e = print_int-injective a b h k (ap (drop 17) e)

-- The initiators that publish and push, for ints, make of a new one.
pub data SetUp (settings : List SessionSetting) : Initiator → Type 0 where
  made : SetUp settings (new_initiator settings)
  published :
      {i j : Initiator} (channel : ℤ) (address : Str)
      → SetUp settings i
      → IsInt channel
      → publish channel address i ≡ some j
      → SetUp settings j
  pushed :
      {i j : Initiator} (channel : ℤ) (address : Str)
      → SetUp settings i
      → IsInt channel
      → push channel address i ≡ some j
      → SetUp settings j

-- Every publisher takes its messages from where a channel that there is sends them.
abbrev Routed : Initiator → Type 0
Routed i =
    (e t : Str)
    → find e i.publishers ≡ some t
    → (c : ℤ) × IsInt c × (find c i.outbound_channels ≢ none) × (t ≡ inproc c)

assign-kept : (k c : ℤ) (v : Str) (m : Map ℤ Str) → find c m ≢ none → find c (assign k v m) ≢ none
assign-kept k c v m h e = elim (Bool-cases (eq k c)) [
  | inl p ↦ let bad : some v ≡ none = sym (find-assign k c v m ∙ rw p refl) ∙ e in cc bad
  | inr p ↦ h (sym (find-assign k c v m ∙ rw p refl) ∙ e)
]

assign-there : (k : ℤ) (v : Str) (m : Map ℤ Str) → find k (assign k v m) ≢ none
assign-there k v m e = let bad : some v ≡ none = sym (find-assign_self k v m) ∙ e in cc bad

abbrev routed_to : ℤ → Str → Initiator → Initiator
routed_to channel address i = record i {
  outbound_channels = assign channel address i.outbound_channels;
}

abbrev published_at : ℤ → Str → Initiator → Initiator
published_at channel address i = record i {
  publishers = with_publisher address (inproc channel) i.publishers;
  outbound_channels = assign channel (inproc channel) i.outbound_channels;
}

-- What publish and push do, when they are allowed.
publish-cases :
    (channel : ℤ) (address : Str) (i j : Initiator)
    → publish channel address i ≡ some j
    → (j ≡ i) ⊎ (j ≡ published_at channel address i)
unfolding publish
publish-cases channel address i j h = elim (Bool-cases i.running) [
  | inl p ↦ let bad : none ≡ some j = sym (simp (publish, p)) ∙ h in cc bad
  | inr p ↦ elim (Option-cases (find channel i.outbound_channels)) [
    | inl q ↦
        let e : publish channel address i ≡ some (published_at channel address i) =
          simp (publish, p, q) in
        inr (ap (λ o. elim o [ none ↦ i | some x ↦ x ]) (sym h ∙ e))
    | inr (old, q) ↦
        let e : publish channel address i ≡ some i = simp (publish, p, q) in
        inl (ap (λ o. elim o [ none ↦ i | some x ↦ x ]) (sym h ∙ e))
  ]
]

push-cases :
    (channel : ℤ) (address : Str) (i j : Initiator)
    → push channel address i ≡ some j
    → (j ≡ i) ⊎ (j ≡ routed_to channel address i)
unfolding push
push-cases channel address i j h = elim (Bool-cases i.running) [
  | inl p ↦ let bad : none ≡ some j = sym (simp (push, p)) ∙ h in cc bad
  | inr p ↦ elim (Option-cases (find channel i.outbound_channels)) [
    | inl q ↦
        let e : push channel address i ≡ some (routed_to channel address i) = simp (push, p, q) in
        inr (ap (λ o. elim o [ none ↦ i | some x ↦ x ]) (sym h ∙ e))
    | inr (old, q) ↦
        let e : push channel address i ≡ some i = simp (push, p, q) in
        inl (ap (λ o. elim o [ none ↦ i | some x ↦ x ]) (sym h ∙ e))
  ]
]

published_at-Routed :
    (channel : ℤ) (address : Str) (i : Initiator)
    → IsInt channel
    → Routed i
    → Routed (published_at channel address i)
published_at-Routed channel address i n v e t h =
    let m = i.outbound_channels in
    let before : find e i.publishers ≡ some t
        → (c : ℤ) × IsInt c × (find c (assign channel (inproc channel) m) ≢ none) × (t ≡ inproc c) =
      λ f.
        let (c, k, there, u) = v e t f in
        (c, k, assign-kept channel c (inproc channel) m there, u) in
    elim (Option-cases (find address i.publishers)) [
      | inr (old, p) ↦ before (sym (rw (with_publisher, p) refl) ∙ h)
      | inl p ↦
          let f : find e (assign address (inproc channel) i.publishers) ≡ some t =
            sym (rw (with_publisher, p) refl) ∙ h in
          elim (Bool-cases (eq address e)) [
            | inl q ↦
                let u : some (inproc channel) ≡ some t =
                  sym (find-assign address e (inproc channel) i.publishers ∙ rw q refl) ∙ f in
                (
                  channel,
                  n,
                  assign-there channel (inproc channel) m,
                  ap (λ o. elim o [ none ↦ t | some x ↦ x ]) (sym u),
                )
            | inr q ↦
                before (sym (find-assign address e (inproc channel) i.publishers ∙ rw q refl) ∙ f)
          ]
    ]

SetUp-Routed : {settings : List SessionSetting} {i : Initiator} → SetUp settings i → Routed i
unfolding find
SetUp-Routed made = λ e t h. cc h
SetUp-Routed (published {i} {j} channel address s n h) =
    elim (publish-cases channel address i j h) [
      | inl p ↦ subst Routed (sym p) (SetUp-Routed s)
      | inr p ↦ subst Routed (sym p) (published_at-Routed channel address i n (SetUp-Routed s))
    ]
SetUp-Routed (pushed {i} {j} channel address s n h) = elim (push-cases channel address i j h) [
  | inl p ↦ subst Routed (sym p) (SetUp-Routed s)
  | inr p ↦ subst Routed (sym p) (λ e t f.
      let (c, k, there, u) = SetUp-Routed s e t f in
      (c, k, assign-kept channel c address i.outbound_channels there, u))
]

-- Of an initiator that was set up by publishing and pushing and does not run, a further channel that is
-- published at the endpoint of another is accepted, but from where its messages are sent to no publisher
-- takes them.
pub publish-SetUp :
    (settings : List SessionSetting) (i : Initiator) (channel : ℤ) (endpoint other : Str)
    → SetUp settings i
    → i.running ≡ false
    → IsInt channel
    → find channel i.outbound_channels ≡ none
    → find endpoint i.publishers ≡ some other
    → (j : Initiator) × (publish channel endpoint i ≡ some j)
      × (find channel j.outbound_channels ≡ some (inproc channel))
      × ((e : Str) → find e j.publishers ≢ some (inproc channel))
publish-SetUp settings i channel endpoint other s idle n c p =
    publish-shared channel endpoint other i idle c p (λ e f.
      let (d, k, there, u) = SetUp-Routed s e (inproc channel) f in
      there (ap (λ x. find x i.outbound_channels) (sym (inproc-injective channel d n k u)) ∙ c))
