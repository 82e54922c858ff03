-- ===== src/Pool/Entries.antt =====
-- Which slot the services of the pool of src/api/tenants.py read, and what keeps it when a manifest
-- is written.
use querix_semantic_search.Prelude.{
  ℕ, suc, ◌≡◌, sym, ap, ◌∙◌, inl, inr, false, some, List, [], ◌∷◌, ltb, length, All, All-append,
  All-map, Bool-cases, Text, text_eq, text_eq_iff, text_eq_refl, lookup, ok,
}
use mathlib.Core.Path.{subst}
use mathlib.Core.Option.{some-injective}
use querix_semantic_search.Generations.Manifest.{Profile, File, profile_for_slot}
use querix_semantic_search.Generations.Reach.{Sound}
use querix_semantic_search.Pool.Services.{Service, World, Setting, drop_key, put, pop_oldest}
use querix_semantic_search.Pool.Swaps.{set_file, swap}
use querix_semantic_search.Pool.Active.{Serves, Sound-Serves}

All-drop_key :
    {V : Type 0} (P : Text × V → Type 0) (key : Text) (es : List (Text × V))
    → All P es
    → All (λ e. (text_eq e.0 key ≡ false) × P e) (drop_key key es)
unfolding drop_key
All-drop_key P key [] h = tt
All-drop_key P key ((k, v) ∷ es) h = elim (Bool-cases (text_eq k key)) [
  | inl same ↦ rw same (All-drop_key P key es h.1)
  | inr differ ↦ rw differ ((differ, h.0), All-drop_key P key es h.1)
]

pub All-pop_oldest :
    {V : Type 0} (P : V → Type 0) (size : ℕ) (es : List V) → All P es → All P (pop_oldest size es).0
unfolding pop_oldest
All-pop_oldest P size [] h = tt
All-pop_oldest P size (e ∷ es) h = elim (Bool-cases (ltb size (suc (length es)))) [
  | inl over ↦ rw over (All-pop_oldest P size es h.1)
  | inr fits ↦ rw fits h
]

pub All-lookup :
    {V : Type 0} (P : Text × V → Type 0) (key : Text) (v : V) (es : List (Text × V))
    → All P es
    → lookup key es ≡ some v
    → P (key, v)
unfolding lookup
All-lookup P key v [] h e = absurd (cc)
All-lookup P key v ((k, u) ∷ es) h e = elim (Bool-cases (text_eq k key)) [
  | inl same ↦ subst P (cc ((text_eq_iff k key).0 same, some-injective u v (rw same at e))) h.0
  | inr differ ↦ All-lookup P key v es h.1 (rw differ at e)
]

module _ {E Engine : Type 0} (st : Setting E Engine) where
  -- The engine of a service was opened on the storage of the service's slot.
  pub record Opened (p : Profile) (s : Service Engine) : Type 0 where
    pub storage : Profile
    pub of_slot : profile_for_slot st.sha256_hex p s.slot ≡ ok storage
    pub opens : st.open_engine storage ≡ ok s.engine

  -- The service of this entry reads the slot that its company's manifest says is active.
  pub record EntryServes (file : Text → File) (e : Text × Service Engine) : Type 0 where
    pub serves : (p : Profile) → st.registry e.0 ≡ some p → Serves p (file e.0) e.1.slot
    pub opened : (p : Profile) → st.registry e.0 ≡ some p → Opened p e.1

  pub record Coherent (w : World E Engine) : Type 0 where
    pub sound : (c : Text) (p : Profile) → st.registry c ≡ some p → Sound p (w.file c)
    pub entries : All (EntryServes w.file) w.services

  pub put-Served :
      (file : Text → File) (c : Text) (s : Service Engine) (es : List (Text × Service Engine))
      → All (EntryServes file) es
      → EntryServes file (c, s)
      → All (EntryServes file) (put c s es)
  put-Served file c s es h v =
      All-append (EntryServes file) (drop_key c es) ((c, s) ∷ [])
        (All-map (λ e x. x.1) (drop_key c es) (All-drop_key (EntryServes file) c es h)) (v, tt)

  -- The entries of other companies, when the file of one is written.
  others-Served :
      (f : File) (c : Text) (w : World E Engine)
      → All (EntryServes w.file) w.services
      → All (EntryServes (set_file st c f w).file) (drop_key c w.services)
  others-Served f c w h =
      All-map (λ e x. record { serves = λ p r. rw x.0 (x.1.serves p r); opened = x.1.opened })
        (drop_key c w.services) (All-drop_key (EntryServes w.file) c w.services h)

  pub entry_at :
      (file : Text → File) (c : Text) (s : Service Engine) (p : Profile)
      → st.registry c ≡ some p
      → Serves p (file c) s.slot
      → Opened p s
      → EntryServes file (c, s)
  entry_at file c s p r v o = record {
    opened = λ q rq. subst (λ (z : Profile). Opened z s) (some-injective p q (sym r ∙ rq)) o;
    serves = λ q rq.
        subst (λ (z : Profile). Serves z (file c) s.slot) (some-injective p q (sym r ∙ rq)) v;
  }

  set_file-Sound :
      (f : File) (c : Text) (p : Profile) (w : World E Engine)
      → Coherent w
      → st.registry c ≡ some p
      → Sound p f
      → (d : Text) (q : Profile) → st.registry d ≡ some q
      → Sound q ((set_file st c f w).file d)
  set_file-Sound f c p w k r v d q rq = elim (Bool-cases (text_eq d c)) [
    | inr differ ↦ rw differ (k.sound d q rq)
    | inl same ↦ rw same (
        subst (λ (z : Profile). Sound z f)
          (some-injective p q (sym r ∙ (ap st.registry (sym ((text_eq_iff d c).0 same)) ∙ rq))) v)
  ]

  -- A manifest that is written while its company's service is replaced.
  pub swap-Coherent :
      (f : File) (c : Text) (p : Profile) (clock : ℕ) (s : Service Engine) (w : World E Engine)
      → Coherent w
      → st.registry c ≡ some p
      → Serves p f s.slot
      → Opened p s
      → Coherent (swap st c clock s (set_file st c f w))
  unfolding swap
  swap-Coherent f c p clock s w k r v o = record {
    sound = set_file-Sound f c p w k r v.sound;
    entries =
        All-append (EntryServes (set_file st c f w).file) (drop_key c w.services) ((c, s) ∷ [])
          (others-Served f c w k.entries)
          (entry_at (set_file st c f w).file c s p r (rw (text_eq_refl c) v) o, tt);
  }

  -- A manifest that is written and keeps its active slot.
  pub write-Coherent :
      (f : File) (c : Text) (p : Profile) (w : World E Engine)
      → Coherent w
      → st.registry c ≡ some p
      → ((slot : Text) → Serves p (w.file c) slot → Serves p f slot)
      → Coherent (set_file st c f w)
  write-Coherent f c p w k r keeps = record {
    sound =
        set_file-Sound f c p w k r
          (let (slot, v) = Sound-Serves p (w.file c) (k.sound c p r) in (keeps slot v).sound);
    entries = All-map kept w.services k.entries;
  }
    where
      moved :
          (e : Text × Service Engine)
          → EntryServes w.file e
          → (q : Profile) → st.registry e.0 ≡ some q
          → e.0 ≡ c
          → Serves q f e.1.slot
      moved e x q rq same =
          let same_profile : p ≡ q =
            (some-injective p q (sym r ∙ (ap st.registry (sym same) ∙ rq))) in
          subst (λ (z : Profile). Serves z f e.1.slot) same_profile
            (keeps e.1.slot (
              subst (λ (z : Text). Serves p (w.file z) e.1.slot) same
                (subst (λ (z : Profile). Serves z (w.file e.0) e.1.slot) (sym same_profile)
                  (x.serves q rq))))

      kept :
          (e : Text × Service Engine)
          → EntryServes w.file e
          → EntryServes (set_file st c f w).file e
      kept e x = record {
        opened = x.opened;
        serves = λ q rq. elim (Bool-cases (text_eq e.0 c)) [
          | inr differ ↦ rw differ (x.serves q rq)
          | inl same ↦ rw same (moved e x q rq ((text_eq_iff e.0 c).0 same))
        ];
      }
