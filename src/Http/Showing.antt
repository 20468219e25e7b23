-- ===== src/Http/Showing.antt =====
-- The items that src/api/controllers/HashtagController.ts shows of rows whose locators are there.
use saral.Base.{
  ℕ, suc, ◌≡◌, refl, ap, ◌∙◌, Bool, true, false, Option, none, some, List, [], ◌∷◌, ◌++◌, String,
  All, length,
}
use saral.Store.Tables.{MediaAsset}
use saral.Query.Listing.{ListMediaRow, key}
use saral.Asset.Storage.{Attempt, got, threw}
use saral.Http.Cursor.{IsCodable}
use saral.Http.Listing.{
  Api, Item, AssetView, status_only, status_of, with_locator, view_key, asset_key, asset_field,
  item_of, cons_item, items_of,
}

-- The runtime codes the row's key and reads it back, and the storage has a locator for its object.
abbrev pub IsServable : Api → ListMediaRow → Type 0
IsServable api row =
    IsCodable api.text (key row)
    × ((k : String) → asset_key row.asset ≡ some k → (l : String) × (api.get_locator k ≡ got l))

module _ (api : Api) where
  view_key_got :
      (a : Option MediaAsset) (key? : Option String)
      → ((k : String) → key? ≡ some k → (l : String) × (api.get_locator k ≡ got l))
      → (v : AssetView) × (view_key api a key? ≡ got v)
  view_key_got a none has = (status_only (status_of a), refl)
  view_key_got a (some k) has = let (l, e) = has k refl in (_, ap (with_locator api a k) e)

  asset_field_got :
      (include_asset : Bool) (a : Option MediaAsset)
      → ((k : String) → asset_key a ≡ some k → (l : String) × (api.get_locator k ≡ got l))
      → (v : Option AssetView) × (asset_field api include_asset a ≡ got v)
  unfolding asset_field
  asset_field_got false a has = (none, refl)
  asset_field_got true a has = let (v, e) = view_key_got a (asset_key a) has in (some v, rw e refl)

  pub items_of_got :
      (include_asset : Bool) (rows : List ListMediaRow)
      → All (IsServable api) rows
      → (items : List Item) × (items_of api include_asset rows ≡ got items)
  unfolding items_of
  items_of_got include_asset [] h = ([], refl)
  items_of_got include_asset (r ∷ rs) ((k, has), h) =
      let (v, e) = asset_field_got include_asset r.asset has in
      let (items, es) = items_of_got include_asset rs h in
      (
        item_of api r v ∷ items,
        ap (cons_item api r (asset_field api include_asset r.asset)) es
            ∙ ap (λ x. cons_item api r x (got items)) e,
      )

  cons_item-append :
      (x : ListMediaRow) (a : Attempt (Option AssetView) String) (r r' : Attempt (List Item) String)
      (is js : List Item)
      → ((rest : List Item) → r ≡ got rest → r' ≡ got (rest ++ js))
      → cons_item api x a r ≡ got is
      → cons_item api x a r' ≡ got (is ++ js)
  cons_item-append x (threw t) r r' is js k e = cc
  cons_item-append x (got a) (threw t) r' is js k e = cc
  cons_item-append x (got a) (got rest) r' is js k e =
      let same : item_of api x a ∷ rest ≡ is = cc in rw (k rest refl, ← same) refl

  pub items_of-append :
      (include_asset : Bool) (xs ys : List ListMediaRow) (is js : List Item)
      → items_of api include_asset xs ≡ got is
      → items_of api include_asset ys ≡ got js
      → items_of api include_asset (xs ++ ys) ≡ got (is ++ js)
  unfolding items_of
  items_of-append include_asset [] ys is js e f =
      let same : ◌≡◌ {A = Attempt (List Item) String} (got []) (got is) = e in
      let none_yet : is ≡ [] = cc in rw none_yet f
  items_of-append include_asset (x ∷ xs) ys is js e f =
      cons_item-append x (asset_field api include_asset x.asset) (items_of api include_asset xs)
        (items_of api include_asset (xs ++ ys)) is js
        (λ rest all. items_of-append include_asset xs ys rest js all f) e

length-cons_item :
    (api : Api) (r : ListMediaRow) (a : Attempt (Option AssetView) String)
    (rest : Attempt (List Item) String) (n : ℕ) (items : List Item)
    → ((shown : List Item) → rest ≡ got shown → length shown ≡ n)
    → cons_item api r a rest ≡ got items
    → length items ≡ suc n
length-cons_item api r (threw t) rest n items k e = cc
length-cons_item api r (got a) (threw t) n items k e = cc
length-cons_item api r (got a) (got shown) n items k e =
    let same : item_of api r a ∷ shown ≡ items = cc in rw (← same, k shown refl) refl

pub length-items_of :
    (api : Api) (include_asset : Bool) (rows : List ListMediaRow) (items : List Item)
    → items_of api include_asset rows ≡ got items
    → length items ≡ length rows
unfolding items_of
length-items_of api include_asset [] items e =
    let same : ◌≡◌ {A = Attempt (List Item) String} (got []) (got items) = e in
    let none_yet : items ≡ [] = cc in rw none_yet refl
length-items_of api include_asset (r ∷ rs) items e =
    length-cons_item api r (asset_field api include_asset r.asset) (items_of api include_asset rs)
      (length rs) items (λ rest. length-items_of api include_asset rs rest) e
