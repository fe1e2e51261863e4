-- ===== src/Vec/History.antt =====
-- Persistence: what any sequence of vector operations leaves of the headers that are around.
use beagle.Base.{ℕ, ◌≡◌, refl, arith, Option, none, List, ◌∷◌, ok, length-replicate, sym, ◌∙◌}
use beagle.Base.Int.{ℤ}
use beagle.Vec.{Machine, Vec, contents, new, assoc, push}
use beagle.Vec.Storage.{new-IsFresh}
use beagle.Vec.Live.{IsGood, Keeps, Shares}
use beagle.Vec.Built.{IsFresh-Built, Built-IsGood, Built-Keeps, Built-Shares}
use beagle.Vec.Push.{push-Pushed}
use beagle.Vec.Copied.{Copied, assoc-Copied}
use beagle.Vec.Bulk.{concat, slice, reverse}
use beagle.Vec.Bulk.Contents.{concat-Copied, slice-Copied}
use beagle.Vec.Bulk.Reversed.{reverse-Copied}

pub data Member (v : Vec) : List Vec → Type 0 where
  here : {vs : List Vec} → Member v (v ∷ vs)
  there : {u : Vec} {vs : List Vec} → Member v vs → Member v (u ∷ vs)

module _ {ℓ} {A : Type ℓ} where
  -- One operation on headers of the list; its result joins them, and none is ever dropped.
  pub data Step : Machine A → List Vec → Machine A → List Vec → Type ℓ where
    created :
        {m m' : Machine A} {vs : List Vec} {r : Vec} (capacity : ℕ) (stride : ℤ) (alignment : ℕ)
        → new m capacity stride alignment ≡ ok (r, m')
        → Step m vs m' (r ∷ vs)
    pushed :
        {m m' : Machine A} {vs : List Vec} {r : Vec} (v : Vec) (x : A) (stride : ℤ) (alignment : ℕ)
        → Member v vs
        → push m v x stride alignment ≡ ok (r, m')
        → Step m vs m' (r ∷ vs)
    replaced :
        {m m' : Machine A} {vs : List Vec} {r : Vec} (v : Vec) (index : ℤ) (x : A) (stride : ℤ)
        (alignment : ℕ)
        → Member v vs
        → assoc m v index x stride alignment ≡ ok (r, m')
        → Step m vs m' (r ∷ vs)
    joined :
        {m m' : Machine A} {vs : List Vec} {r : Vec} (v w : Vec) (stride : ℤ) (alignment : ℕ)
        → Member v vs
        → Member w vs
        → concat m v w stride alignment ≡ ok (r, m')
        → Step m vs m' (r ∷ vs)
    sliced :
        {m m' : Machine A} {vs : List Vec} {r : Vec} (v : Vec) (start end : ℤ) (stride : ℤ)
        (alignment : ℕ)
        → Member v vs
        → slice m v start end stride alignment ≡ ok (r, m')
        → Step m vs m' (r ∷ vs)
    reversed :
        {m m' : Machine A} {vs : List Vec} {r : Vec} (v : Vec) (stride : ℤ) (alignment : ℕ)
        → Member v vs
        → reverse m v stride alignment ≡ ok (r, m')
        → Step m vs m' (r ∷ vs)

  pub data History : Machine A → List Vec → Machine A → List Vec → Type ℓ where
    done : {m : Machine A} {vs : List Vec} → History m vs m vs
    then :
        {m₁ m₂ m₃ : Machine A} {vs₁ vs₂ vs₃ : List Vec}
        → Step m₁ vs₁ m₂ vs₂
        → History m₂ vs₂ m₃ vs₃
        → History m₁ vs₁ m₃ vs₃

  -- The headers of the list are good, and two over one storage have one watermark.
  pub record Live (m : Machine A) (vs : List Vec) : Type ℓ where
    pub good : (u : Vec) → Member u vs → IsGood m u
    pub together : (u w : Vec) → Member u vs → Member w vs → Shares u w

  -- What a step has to leave.
  pub record Kept (m m' : Machine A) (vs vs' : List Vec) : Type ℓ where
    pub live : Live m' vs'
    pub members : (u : Vec) → Member u vs → Member u vs'
    pub same : (u : Vec) → Member u vs → contents m' u ≡ contents m u

  joins :
      (m m' : Machine A) (vs : List Vec) (r : Vec)
      → Live m vs
      → IsGood m' r
      → ((u : Vec) → Member u vs → Keeps m m' u)
      → ((u : Vec) → Member u vs → Shares r u × Shares u r)
      → Kept m m' vs (r ∷ vs)
  joins m m' vs r live good keeps shares = record {
    live = record { good = all_good; together = all_together };
    members = λ u at. there at;
    same = λ u at. (keeps u at).same_contents;
  }
    where
      all_good : (u : Vec) → Member u (r ∷ vs) → IsGood m' u
      all_good _ here = good
      all_good u (there at) = (keeps u at).still_good

      all_together : (u w : Vec) → Member u (r ∷ vs) → Member w (r ∷ vs) → Shares u w
      all_together _ _ here here = λ e _ _. refl
      all_together _ w here (there at) = (shares w at).0
      all_together u _ (there at) here = (shares u at).1
      all_together u w (there at) (there at') = live.together u w at at'

  Copied-Kept :
      {m m' : Machine A} {vs : List Vec} {r : Vec} {shown : List (Option A)}
      → Live m vs
      → Copied m m' r shown
      → Kept m m' vs (r ∷ vs)
  Copied-Kept {m} {m'} {vs} {r} live c =
      joins m m' vs r live c.good (λ u at. c.keeps u (live.good u at))
        (λ u at. c.apart u (live.good u at))

  Step-Kept :
      {m m' : Machine A} {vs vs' : List Vec} → Live m vs → Step m vs m' vs' → Kept m m' vs vs'
  Step-Kept {m} {m'} {vs} live (created {r = r} capacity stride alignment h) =
      let f = new-IsFresh m capacity stride alignment r m' h in
      let b = IsFresh-Built f in
      let sized = length-replicate capacity (let e : Option A = none in e) ∙ sym f.sized in
      joins m m' vs r live (Built-IsGood b (omega (arith, f.empty)) (omega (arith, f.empty)) sized)
        (λ u at. Built-Keeps u (live.good u at) b) (λ u at. Built-Shares u (live.good u at) b)
  Step-Kept {m} {m'} {vs} live (pushed {r = r} v x stride alignment at h) =
      let p = push-Pushed m v x stride alignment r m' (live.good v at) h in
      joins m m' vs r live p.good (λ u at'. p.keeps u (live.good u at') (live.together v u at at'))
        (λ u at'.
          p.shares u (live.good u at') (live.together v u at at') (live.together u v at' at))
  Step-Kept {m} {m'} {vs} live (replaced {r = r} v index x stride alignment at h) =
      let (i, _, _, c) = assoc-Copied m v index x stride alignment r m' (live.good v at) h in
      Copied-Kept live c
  Step-Kept {m} {m'} {vs} live (joined {r = r} v w stride alignment at at' h) =
      Copied-Kept live
        (concat-Copied m v w stride alignment r m' (live.good v at) (live.good w at') h)
  Step-Kept {m} {m'} {vs} live (sliced {r = r} v start end stride alignment at h) =
      let (i, j, _, _, _, _, c) =
        slice-Copied m v start end stride alignment r m' (live.good v at) h in
      Copied-Kept live c
  Step-Kept {m} {m'} {vs} live (reversed {r = r} v stride alignment at h) =
      Copied-Kept live (reverse-Copied m v stride alignment r m' (live.good v at) h)

  -- After any sequence of operations on live headers, each of them shows the elements it showed
  -- before, and all headers, the new ones included, are live.
  pub History-Kept :
      {m m' : Machine A} {vs vs' : List Vec} → Live m vs → History m vs m' vs' → Kept m m' vs vs'
  History-Kept live done = record { live = live; members = λ u at. at; same = λ u at. refl }
  History-Kept live (then step rest) =
      let k = Step-Kept live step in
      let k' = History-Kept k.live rest in
      record {
        live = k'.live;
        members = λ u at. k'.members u (k.members u at);
        same = λ u at. k'.same u (k.members u at) ∙ k.same u at;
      }
