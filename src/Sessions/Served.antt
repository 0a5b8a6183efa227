-- ===== src/Sessions/Served.antt =====
-- Which channels of an initiator have a publisher that takes their messages.
use atp.Common.{◌≡◌, ◌≢◌, refl, sym, ◌∙◌, true, false, none, some, [], ◌∷◌, All}
use atp.Common.Int.{ℤ}
use atp.Common.Eq.{int_eq}
use atp.Common.Map.{Map, find, assign, find-assign_self, find-assign_ne}
use atp.Common.Text.{Str, str_eq}
use atp.Sessions.Initiator.{Initiator, inproc, with_publisher, publish, configure}

-- The connectors send the messages of the channel where the publisher of its endpoint takes them.
abbrev pub Served : Initiator → ℤ × Str → Type 0
Served i (channel, endpoint) =
    (find channel i.outbound_channels ≡ some (inproc channel))
    × (find endpoint i.publishers ≡ some (inproc channel))

-- Neither the channel nor the endpoint is used.
abbrev pub Unused : Initiator → ℤ × Str → Type 0
Unused i (channel, endpoint) =
    (find channel i.outbound_channels ≡ none) × (find endpoint i.publishers ≡ none)

abbrev pub Differ : ℤ × Str → ℤ × Str → Type 0
Differ (channel, endpoint) (c, e) = (channel ≢ c) × (endpoint ≢ e)

-- No two entries have a channel or an endpoint in common.
abbrev pub AllDiffer : Map ℤ Str → Type 0
AllDiffer [] = Unit {0}
AllDiffer (x ∷ m) = All (Differ x) m × AllDiffer m

-- The initiator after a channel is published at an endpoint that is new.
abbrev published : ℤ → Str → Initiator → Initiator
published channel endpoint i = record i {
  publishers = assign endpoint (inproc channel) i.publishers;
  outbound_channels = assign channel (inproc channel) i.outbound_channels;
}

publish-published :
    (channel : ℤ) (endpoint : Str) (i : Initiator)
    → i.running ≡ false
    → Unused i (channel, endpoint)
    → publish channel endpoint i ≡ some (published channel endpoint i)
unfolding publish
publish-published channel endpoint i idle (c, e) = simp (publish, idle, c, with_publisher, e)

published-Served :
    (channel : ℤ) (endpoint : Str) (i : Initiator)
    → Served (published channel endpoint i) (channel, endpoint)
published-Served channel endpoint i = (
  find-assign_self channel (inproc channel) i.outbound_channels,
  find-assign_self endpoint (inproc channel) i.publishers,
)

-- Publishing changes nothing of an entry that differs.
published-channel :
    (channel c : ℤ) (endpoint e : Str) (i : Initiator)
    → Differ (channel, endpoint) (c, e)
    → (find c (published channel endpoint i).outbound_channels ≡ find c i.outbound_channels)
      × (find e (published channel endpoint i).publishers ≡ find e i.publishers)
published-channel channel c endpoint e i (d, f) = (
  find-assign_ne channel c (inproc channel) i.outbound_channels d,
  find-assign_ne endpoint e (inproc channel) i.publishers f,
)

Configured : Map ℤ Str → Initiator → Initiator → Type 0
Configured m i i' =
    (configure m true i ≡ some i')
    × All (Served i') m
    × ((x : ℤ × Str) → All (λ y. Differ y x) m → Served i x → Served i' x)

configure-Configured :
    (m : Map ℤ Str) (i : Initiator)
    → i.running ≡ false
    → AllDiffer m
    → All (Unused i) m
    → (i' : Initiator) × Configured m i i'
unfolding configure Configured
configure-Configured [] i idle d free = (i, (refl, tt, λ x h s. s))
configure-Configured ((channel, endpoint) ∷ m) i idle (here, d) (free, rest) =
    let next = published channel endpoint i in
    let unused : All (Unused next) m = still_unused m here rest in
    let (i', (e, served, keeps)) = configure-Configured m next idle d unused in
    (
      i',
      (
        rw (configure, publish-published channel endpoint i idle free) e,
        (keeps (channel, endpoint) (flipped m here) (published-Served channel endpoint i), served),
        λ x h s. keeps x h.1 (kept x h.0 s),
      ),
    )
  where
    still_unused :
        (l : Map ℤ Str)
        → All (Differ (channel, endpoint)) l
        → All (Unused i) l
        → All (Unused (published channel endpoint i)) l
    still_unused [] h u = tt
    still_unused ((c, e) ∷ l) (h, hs) ((u, v), us) =
        let (p, q) = published-channel channel c endpoint e i h in
        ((p ∙ u, q ∙ v), still_unused l hs us)

    flipped :
        (l : Map ℤ Str)
        → All (Differ (channel, endpoint)) l
        → All (λ y. Differ y (channel, endpoint)) l
    flipped [] h = tt
    flipped ((c, e) ∷ l) ((p, q), hs) = ((λ r. p (sym r), λ r. q (sym r)), flipped l hs)

    kept :
        (x : ℤ × Str)
        → Differ (channel, endpoint) x
        → Served i x
        → Served (published channel endpoint i) x
    kept (c, e) h (s, t) = let (p, q) = published-channel channel c endpoint e i h in (p ∙ s, q ∙ t)

-- When an initiator that does not run publishes channels that it does not have, at endpoints that are new
-- and all different, every channel is sent to where the publisher of its endpoint takes its messages.
pub configure-Served :
    (m : Map ℤ Str) (i : Initiator)
    → i.running ≡ false
    → AllDiffer m
    → All (Unused i) m
    → (i' : Initiator) × (configure m true i ≡ some i') × All (Served i') m
unfolding Configured
configure-Served m i idle d free =
    let (i', (e, served, keeps)) = configure-Configured m i idle d free in (i', e, served)

-- A channel that is published at the endpoint of another is accepted, but no publisher takes the messages
-- from where it is sent to.
pub publish-shared :
    (channel : ℤ) (endpoint other : Str) (i : Initiator)
    → i.running ≡ false
    → find channel i.outbound_channels ≡ none
    → find endpoint i.publishers ≡ some other
    → ((e : Str) → find e i.publishers ≢ some (inproc channel))
    → (i' : Initiator) × (publish channel endpoint i ≡ some i')
      × (find channel i'.outbound_channels ≡ some (inproc channel))
      × ((e : Str) → find e i'.publishers ≢ some (inproc channel))
unfolding publish
publish-shared channel endpoint other i idle c p nobody = (
  record i { outbound_channels = assign channel (inproc channel) i.outbound_channels },
  simp (publish, idle, c, with_publisher, p),
  find-assign_self channel (inproc channel) i.outbound_channels,
  nobody,
)
