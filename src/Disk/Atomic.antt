-- ===== src/Disk/Atomic.antt =====
-- LocalDiskStorage.putStream (src/adapters/local/LocalDiskStorage.ts) leaves no truncated file.
use saral.Base.{
  ℕ, ◌≡◌, ◌≢◌, refl, sym, ◌∙◌, Option, none, some, List, [], ◌∷◌, String, ◌⊎◌, inl, inr,
  Option-cases,
}
use mathlib.Core.Path.{subst}
use saral.Asset.Storage.{Attempt, threw, PutOptions, StoredObject, Attempt-cases}
use saral.Disk.Paths.{resolve}
use saral.Disk.Driver.{
  suffixed, suffix, partial, Files, dirname, replace_file, measured, in_dir, put_resolved,
  put_stream,
}

-- What node:fs promises of the calls that the driver makes, for the contents of the files by their
-- paths, where no link gives one file two paths: a call changes no other path than those that it names, a stream that was written whole is the
-- file's content, and a rename moves it, or fails and changes nothing.
pub record FilesLaws {W : Type 0} (files : Files W) (content : W → List String → Option (List ℕ))
    : Type 0 where
  pub stat_keeps : (p q : List String) (w : W) → content (files.stat p w).0 q ≡ content w q
  pub make_dir_keeps : (d q : List String) (w : W) → content (files.make_dir d w).0 q ≡ content w q
  pub write_keeps :
      (p q : List String) (body : List ℕ) (w : W)
      → q ≢ p
      → content (files.write_stream p body w).0 q ≡ content w q
  pub write_whole :
      (p : List String) (body : List ℕ) (w : W)
      → (files.write_stream p body w).1 ≡ none
      → content (files.write_stream p body w).0 p ≡ some body
  pub rename_moves :
      (p q : List String) (w : W)
      → (files.rename p q w).1 ≡ none
      → content (files.rename p q w).0 q ≡ content w p
  pub rename_keeps :
      (p q u : List String) (w : W) → u ≢ p → u ≢ q → content (files.rename p q w).0 u ≡ content w u
  pub rename_fails :
      (p q u : List String) (w : W) (e : String)
      → (files.rename p q w).1 ≡ some e
      → content (files.rename p q w).0 u ≡ content w u
  pub unlink_keeps :
      (p q : List String) (w : W) → q ≢ p → content (files.unlink p w).0 q ≡ content w q

suffixed-ne : (s : String) (pid : String) → suffixed s (suffix pid) ≢ s
suffixed-ne String.[] pid e = cc
suffixed-ne (String.◌∷◌ c s) pid e =
    let tails : suffixed s (suffix pid) ≡ s = cc in suffixed-ne s pid tails

-- The partial file stands beside its target.
partial-ne : (pid : String) (t : List String) → partial pid t ≢ t
partial-ne pid [] e = cc
partial-ne pid (s ∷ []) e = suffixed-ne s pid cc
partial-ne pid (s ∷ t ∷ ts) e =
    let tails : partial pid (t ∷ ts) ≡ t ∷ ts = cc in partial-ne pid (t ∷ ts) tails

module _ {W : Type 0} (files : Files W) (content : W → List String → Option (List ℕ))
    (laws : FilesLaws files content) (root t : List String) (body : List ℕ) where
  -- The file has the whole body, or it is as it was and the call has failed.
  abbrev WholeOrOld : W → W × Option String → Type 0
  WholeOrOld w (w', r) =
      (content w' t ≡ some body) ⊎ ((e : String) × (r ≡ some e) × (content w' t ≡ content w t))

  replace_file_whole : (w : W) → WholeOrOld w (replace_file files root t body w)
  unfolding replace_file
  replace_file_whole w =
      let p = partial files.pid t in
      let apart : t ≢ p = λ e. partial-ne files.pid t (sym e) in
      let w1 = (files.write_stream (partial files.pid t) body w).0 in
      let w2 = (files.rename (partial files.pid t) t w1).0 in
      elim (Option-cases (files.write_stream (partial files.pid t) body w).1) [
        | inr (e, failed) ↦
            rw failed
              (inr (e, refl, laws.unlink_keeps p t w1 apart ∙ laws.write_keeps p t body w apart))
        | inl whole ↦ elim (Option-cases (files.rename (partial files.pid t) t w1).1) [
          | inl moved ↦
              rw (whole, moved)
                (inl (laws.rename_moves p t w1 moved ∙ laws.write_whole p body w whole))
          | inr (e, failed) ↦
              rw (whole, failed)
                (inr (
                  e,
                  refl,
                  laws.unlink_keeps p t w2 apart
                      ∙ laws.rename_fails p t t w1 e failed
                      ∙ laws.write_keeps p t body w apart,
                ))
        ]
      ]

  replace_file_others :
      (u : List String)
      → u ≢ t
      → u ≢ partial files.pid t
      → (w : W) → content (replace_file files root t body w).0 u ≡ content w u
  unfolding replace_file
  replace_file_others u ne other w =
      let p = partial files.pid t in
      let w1 = (files.write_stream (partial files.pid t) body w).0 in
      let w2 = (files.rename (partial files.pid t) t w1).0 in
      let kept = laws.rename_keeps p t u w1 other ne ∙ laws.write_keeps p u body w other in
      elim (Option-cases (files.write_stream (partial files.pid t) body w).1) [
        | inr (e, failed) ↦
            rw failed (laws.unlink_keeps p u w1 other ∙ laws.write_keeps p u body w other)
        | inl whole ↦ elim (Option-cases (files.rename (partial files.pid t) t w1).1) [
          | inl moved ↦ rw (whole, moved) kept
          | inr (e, failed) ↦ rw (whole, failed) (laws.unlink_keeps p u w2 other ∙ kept)
        ]
      ]

  -- Once the file is in place, only its size is asked for.
  measured-content :
      (key : String) (options : PutOptions) (r : W × Option String) (p : List String)
      → content (measured files root key options t r).0 p ≡ content r.0 p
  measured-content key options (w, some e) p = refl
  measured-content key options (w, none) p = elim (Attempt-cases (files.stat t w).1) [
    | inl (e, failed) ↦ rw failed (laws.stat_keeps t p w)
    | inr (info, known) ↦ rw known (laws.stat_keeps t p w)
  ]

  measured-threw :
      (key : String) (options : PutOptions) (r : W × Option String) (e : String)
      → r.1 ≡ some e
      → (measured files root key options t r).1 ≡ threw e
  measured-threw key options (w, none) e h = cc
  measured-threw key options (w, some d) e h = cc

  -- What a call leaves: the target has the whole body, or it is as it was and the call has failed;
  -- and no other path but the partial one is touched.
  abbrev pub Leaves : W → W × Attempt StoredObject String → Type 0
  Leaves w o =
      ((content o.0 t ≡ some body)
        ⊎ ((e : String) × (o.1 ≡ threw e) × (content o.0 t ≡ content w t)))
      × ((u : List String) → u ≢ t → u ≢ partial files.pid t → content o.0 u ≡ content w u)

  in_dir-Leaves :
      (key : String) (options : PutOptions) (w w1 : W) (made : Option String)
      → ((p : List String) → content w1 p ≡ content w p)
      → Leaves w (in_dir files root key body options t (w1, made))
  in_dir-Leaves key options w w1 (some e) same = (inr (e, refl, same t), λ u ne other. same u)
  in_dir-Leaves key options w w1 none same =
      let r = replace_file files root t body w1 in
      let kept = measured-content key options r in
      (
        elim (replace_file_whole w1) [
          | inl whole ↦ inl (kept t ∙ whole)
          | inr (e, failed, old) ↦
              inr (e, measured-threw key options r e failed, kept t ∙ old ∙ same t)
        ],
        λ u ne other. kept u ∙ replace_file_others u ne other w1 ∙ same u,
      )

  -- Let node:fs keep its promises. A `putStream` at a key that resolves leaves the whole body at its
  -- path, or leaves that path as it was and throws, whatever fails on the way. It touches no other
  -- path, but for the one in the same directory that has the process id and `.partial` at its end.
  pub put_stream-Leaves :
      (key : String) (options : PutOptions) (w : W)
      → resolve root key ≡ some t
      → Leaves w (put_stream files root key body options w)
  unfolding put_stream
  put_stream-Leaves key options w here =
      subst (λ o. Leaves w (put_resolved files root key body options w o)) (sym here)
        (unfold put_resolved in
          in_dir-Leaves key options w (files.make_dir (dirname t) w).0
            (files.make_dir (dirname t) w).1 (λ p. laws.make_dir_keeps (dirname t) p w))
