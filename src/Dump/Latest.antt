-- ===== src/Dump/Latest.antt =====
-- Which dump `latest` stands for.
use leafmask.Prelude.{
  Text, codes, text_leb, true, false, List, [], ◌∷◌, ◌≡◌, refl, sym, ap, ◌∙◌, ◌↔◌, inl, inr, In,
  All, filter, In-filter, Bool-cases, arith,
}
use leafmask.Prelude.Result.{ok, err, Result-cases, not_found}
use leafmask.Dump.Metadata.{DumpMetadata}
use leafmask.Dump.Storage.{
  Storage, BlobCodec, completed, read_metadata, unreadable, or_unreadable, read_all, list_metadata,
  insert_latest, sort_latest, first_done, resolve,
}

text_leb_total : (s t : Text) → text_leb s t ≡ false → text_leb t s ≡ true
text_leb_total [] t h = cc
text_leb_total (x ∷ s) [] h = refl
text_leb_total (x ∷ s) (y ∷ t) h = ground (arith, h, text_leb_total s t)

text_leb_trans : (s t u : Text) → text_leb s t ≡ true → text_leb t u ≡ true → text_leb s u ≡ true
text_leb_trans [] t u h k = refl
text_leb_trans (x ∷ s) [] u h k = cc
text_leb_trans (x ∷ s) (y ∷ t) [] h k = cc
text_leb_trans (x ∷ s) (y ∷ t) (z ∷ u) h k = ground (arith, h, k, text_leb_trans s t u)

-- None of the dumps is newer.
abbrev pub Newest : DumpMetadata → List DumpMetadata → Type 0
Newest m ms = All (λ x. text_leb x.created_at m.created_at ≡ true) ms

Newest-trans :
    (m x : DumpMetadata) (ms : List DumpMetadata)
    → text_leb x.created_at m.created_at ≡ true
    → Newest x ms
    → Newest m ms
Newest-trans m x [] h n = tt
Newest-trans m x (y ∷ ys) h (n, ns) =
    (text_leb_trans y.created_at x.created_at m.created_at n h, Newest-trans m x ys h ns)

-- The first of the sorted dumps, if there is one, is one of them, and the newest.
abbrev HeadNewest : List DumpMetadata → List DumpMetadata → Type 0
HeadNewest [] ms = ms ≡ []
HeadNewest (m ∷ rest) ms = In m ms × Newest m ms

text_leb_refl : (s : Text) → text_leb s s ≡ true
text_leb_refl s = elim (Bool-cases (text_leb s s)) [ inl e ↦ e | inr e ↦ text_leb_total s s e ]

insert_latest-HeadNewest :
    (x : DumpMetadata) (sorted ms : List DumpMetadata)
    → HeadNewest sorted ms
    → HeadNewest (insert_latest x sorted) (x ∷ ms)
insert_latest-HeadNewest x [] ms e = rw e (inl refl, (text_leb_refl x.created_at, tt))
insert_latest-HeadNewest x (y ∷ ys) ms (member, newest) =
    elim (Bool-cases (text_leb y.created_at x.created_at)) [
      | inl older ↦
          rw older (inl refl, (text_leb_refl x.created_at, Newest-trans x y ms older newest))
      | inr newer ↦ rw newer (inr member, (text_leb_total y.created_at x.created_at newer, newest))
    ]

sort_latest-HeadNewest : (ms : List DumpMetadata) → HeadNewest (sort_latest ms) ms
sort_latest-HeadNewest [] = refl
sort_latest-HeadNewest (m ∷ ms) =
    insert_latest-HeadNewest m (sort_latest ms) ms (sort_latest-HeadNewest ms)

first_done-Newest :
    (sorted ms : List DumpMetadata) (m : DumpMetadata)
    → HeadNewest sorted ms
    → first_done sorted ≡ ok m
    → In m ms × Newest m ms
first_done-Newest [] ms m head e = cc
first_done-Newest (x ∷ xs) ms m head e = let same : x ≡ m = cc in rw (← same) head

first_done-none :
    (sorted ms : List DumpMetadata)
    → HeadNewest sorted ms
    → (first_done sorted ≡ err not_found) ↔ (ms ≡ [])
first_done-none [] ms head = (λ e. head, λ e. refl)
first_done-none (x ∷ xs) ms (member, newest) = (λ e. cc, λ e. elim (rw e at member) [ ])

module _ {S : Type 0} ⦃codec : BlobCodec⦄ (store : Storage S) where
  -- The metadata that is read from the dump of an id, and says that the dump is complete.
  abbrev pub Complete : S → List Text → DumpMetadata → Type 0
  Complete s ids m =
      (completed m.status ≡ true) × ((id : Text) × In id ids × (read_metadata store id s ≡ ok m))

  read_all-read :
      (ids : List Text) (s : S) (m : DumpMetadata)
      → completed m.status ≡ true
      → In m (read_all store ids s)
      → (id : Text) × In id ids × (read_metadata store id s ≡ ok m)
  read_all-read [] s m done member = elim member [ ]
  read_all-read (id ∷ ids) s m done (inl e) = elim (Result-cases (read_metadata store id s)) [
    | inl (x, f) ↦ let same : m ≡ x = rw f at e in (id, inl refl, f ∙ ap ok (sym same))
    | inr (x, f) ↦ let same : m ≡ unreadable store id = rw f at e in absurd (cc (rw same at done))
  ]
  read_all-read (id ∷ ids) s m done (inr member) =
      let (other, i, e) = read_all-read ids s m done member in (other, inr i, e)

  read_all-In :
      (ids : List Text) (s : S) (m : DumpMetadata) (id : Text)
      → In id ids
      → read_metadata store id s ≡ ok m
      → In m (read_all store ids s)
  read_all-In [] s m id member e = elim member [ ]
  read_all-In (j ∷ ids) s m id (inl same) e = inl (sym (ap (or_unreadable store j) (rw same at e)))
  read_all-In (j ∷ ids) s m id (inr member) e = inr (read_all-In ids s m id member e)

  Newest-In :
      (m x : DumpMetadata) (ms : List DumpMetadata)
      → Newest m ms
      → In x ms
      → text_leb x.created_at m.created_at ≡ true
  Newest-In m x [] newest member = elim member [ ]
  Newest-In m x (y ∷ ys) (n, ns) (inl e) = rw e n
  Newest-In m x (y ∷ ys) (n, ns) (inr member) = Newest-In m x ys ns member

  -- What `latest` resolves to in a storage that lists the ids is the metadata of a completed dump
  -- that is listed, and no listed dump that is completed and can be read was created later.
  pub resolve-latest :
      (s : S) (ids : List Text) (m : DumpMetadata)
      → store.list_dumps s ≡ ok ids
      → resolve store (codes "latest") s ≡ ok m
      → Complete s ids m
        × ((x : DumpMetadata) → Complete s ids x → text_leb x.created_at m.created_at ≡ true)
  unfolding resolve list_metadata
  resolve-latest s ids m listed e =
      let all = read_all store ids s in
      let chosen : first_done (sort_latest (filter (λ d. completed d.status) all)) ≡ ok m =
        rw listed at e in
      let (member, newest) =
        first_done-Newest (sort_latest (filter (λ d. completed d.status) all))
          (filter (λ d. completed d.status) all) m
          (sort_latest-HeadNewest (filter (λ d. completed d.status) all)) chosen in
      let (there, done) = (In-filter (λ d. completed d.status) m all).0 member in
      (
        (done, read_all-read ids s m done there),
        λ x (done', (id, i, f)).
            Newest-In m x (filter (λ d. completed d.status) all) newest
              ((In-filter (λ d. completed d.status) x all).1 (read_all-In ids s x id i f, done')),
      )
