-- ===== src/Device/Enabled.antt =====
-- The keys that the virtual keyboard can send, and the requests that set it up.
use ahk_unix.Base.{
  ℕ, zero, suc, ◌+◌, ◌≤◌, Bool, true, false, List, [], ◌∷◌, ◌++◌, ◌≡◌, ◌⊎◌, inl, inr, refl, sym, ap,
  subst, ◌∙◌, arith, sys_error, Bool-cases, append_assoc, append-nil,
}
use ahk_unix.Keys.{ev_syn, ev_key}
use ahk_unix.Daemon.Longest.{In, here, there}
use ahk_unix.Device.Uinput.{
  key_max, Request, set_evbit, set_keybit, dev_setup, dev_create, label, Made, made, refused,
  and_then, ioctl_or_throw, enable, key_loop, open_virtual,
}

-- The requests for `count` keys.
unfoldable pub keybits : ℕ → ℕ → List Request
keybits zero key = []
keybits (suc count) key = set_keybit key ∷ keybits count (suc key)

-- The requests that set a keyboard up, the creation last.
abbrev pub set_up : List Request
set_up =
    set_evbit ev_key ∷ set_evbit ev_syn ∷ (keybits (key_max + 1) 0 ++ (dev_setup ∷ dev_create ∷ []))

keybits-In :
    (count first offset key : ℕ)
    → offset + 1 ≤ count
    → key ≡ first + offset
    → In (set_keybit key) (keybits count first)
unfolding keybits
keybits-In zero first offset key h e = absurd (omega arith)
keybits-In (suc count) first zero key h e =
    subst (λ k. In (set_keybit k) (set_keybit first ∷ keybits count (suc first))) (omega arith) here
keybits-In (suc count) first (suc offset) key h e =
    there (keybits-In count (suc first) offset key (omega arith) (omega arith))

In-append-left {ℓ} : {A : Type ℓ} {x : A} (xs ys : List A) → In x xs → In x (xs ++ ys)
In-append-left [] ys i = elim i [ ]
In-append-left (y ∷ xs) ys here = here
In-append-left (y ∷ xs) ys (there i) = there (In-append-left xs ys i)

-- Every key up to `KEY_MAX` is among the requests.
set_up-In : (key : ℕ) → key ≤ key_max → In (set_keybit key) set_up
set_up-In key h = there (
    there (
      In-append-left (keybits (key_max + 1) 0) (dev_setup ∷ dev_create ∷ [])
        (keybits-In (key_max + 1) 0 key key (omega arith) (omega arith))))

and_then-cong :
    (m : Made) (f g : List Request → Made)
    → ((a : List Request) → f a ≡ g a)
    → and_then m f ≡ and_then m g
unfolding and_then
and_then-cong (made a) f g same = same a
and_then-cong (refused e a) f g same = refl

and_then-made : (m : Made) → m ≡ and_then m (λ a. made a)
unfolding and_then
and_then-made (made a) = refl
and_then-made (refused e a) = refl

module _ (ioctl : Request → Bool) where
  -- The requests one after the other, up to one that is refused.
  unfoldable request_all : List Request → List Request → Made
  unfolding and_then ioctl_or_throw
  request_all [] accepted = made accepted
  request_all (request ∷ requests) accepted =
      and_then (ioctl_or_throw ioctl request accepted) (request_all requests)

  then-request_all :
      (requests : List Request) (next : List Request → Made) (accepted : List Request)
      (more : List Request)
      → ((a : List Request) → next a ≡ request_all more a)
      → and_then (request_all requests accepted) next ≡ request_all (requests ++ more) accepted
  unfolding request_all and_then ioctl_or_throw
  then-request_all [] next accepted more same = same accepted
  then-request_all (request ∷ requests) next accepted more same =
      elim (Bool-cases (ioctl request)) [
        | inl e ↦
            rw (e, ioctl_or_throw)
              (then-request_all requests next (accepted ++ (request ∷ [])) more same)
        | inr e ↦ rw (e, ioctl_or_throw) refl
      ]

  key_loop-request_all :
      (count key : ℕ) (accepted : List Request)
      → key_loop ioctl count key accepted ≡ request_all (keybits count key) accepted
  unfolding key_loop request_all keybits and_then ioctl_or_throw
  key_loop-request_all zero key accepted = refl
  key_loop-request_all (suc count) key accepted = elim (Bool-cases (ioctl (set_keybit key))) [
    | inl e ↦
        rw (e, ioctl_or_throw)
          (key_loop-request_all count (suc key) (accepted ++ (set_keybit key ∷ [])))
    | inr e ↦ rw (e, ioctl_or_throw) refl
  ]

  open_virtual-request_all : open_virtual ioctl true ≡ request_all set_up []
  unfolding open_virtual enable request_all
  open_virtual-request_all = and_then-cong (ioctl_or_throw ioctl (set_evbit ev_key) []) _ _ (λ a.
      and_then-cong (ioctl_or_throw ioctl (set_evbit ev_syn) a) _ _ (λ b.
        ap (λ m. and_then m made_device) (key_loop-request_all (key_max + 1) 0 b)
        ∙ then-request_all (keybits (key_max + 1) 0) made_device b (dev_setup ∷ dev_create ∷ [])
            (λ c.
              and_then-cong (ioctl_or_throw ioctl dev_setup c) _ _
                (λ d. and_then-made (ioctl_or_throw ioctl dev_create d)))))
    where
      made_device : List Request → Made
      made_device c = and_then (ioctl_or_throw ioctl dev_setup c) (ioctl_or_throw ioctl dev_create)

  -- All requests are accepted, or they are up to the first that is refused.
  abbrev pub FirstRefused : List Request → List Request → Made → Type 0
  FirstRefused requests accepted m =
      ((m ≡ made (accepted ++ requests))
        × ((request : Request) → In request requests → ioctl request ≡ true))
      ⊎ ((before : List Request) × (request : Request) × (after : List Request) × (requests
            ≡ before ++ (request ∷ after))
          × ((r : Request) → In r before → ioctl r ≡ true)
          × (ioctl request ≡ false)
          × (m ≡ refused (sys_error (label request)) (accepted ++ before)))

  both :
      (request : Request) (requests : List Request)
      → ioctl request ≡ true
      → ((r : Request) → In r requests → ioctl r ≡ true)
      → (r : Request) → In r (request ∷ requests)
      → ioctl r ≡ true
  both request requests e all r here = e
  both request requests e all r (there i) = all r i

  one_more :
      (m : Made) (request : Request) (requests accepted : List Request)
      → ioctl request ≡ true
      → FirstRefused requests (accepted ++ (request ∷ [])) m
      → FirstRefused (request ∷ requests) accepted m
  one_more m request requests accepted e (inl (whole, all)) =
      inl (
        whole ∙ ap made (append_assoc accepted (request ∷ []) requests),
        both request requests e all,
      )
  one_more m request requests accepted e (inr (before, r, after, split, all, off, what)) = inr (
    request ∷ before,
    r,
    after,
    ap (λ xs. request ∷ xs) split,
    both request before e all,
    off,
    what ∙ ap (refused (sys_error (label r))) (append_assoc accepted (request ∷ []) before),
  )

  request_all-FirstRefused :
      (requests accepted : List Request)
      → FirstRefused requests accepted (request_all requests accepted)
  unfolding request_all and_then
  request_all-FirstRefused [] accepted =
      inl (ap made (sym (append-nil accepted)), λ r i. elim i [ ])
  request_all-FirstRefused (request ∷ requests) accepted = elim (Bool-cases (ioctl request)) [
    | inl e ↦
        rw (e, ioctl_or_throw)
          (one_more _ request requests accepted e
            (request_all-FirstRefused requests (accepted ++ (request ∷ []))))
    | inr e ↦
        rw (e, ioctl_or_throw)
          (inr (
            [],
            request,
            requests,
            refl,
            (λ r i. elim i [ ]),
            e,
            ap (refused (sys_error (label request))) (sym (append-nil accepted)),
          ))
  ]

-- The set-up of the virtual keyboard, whose file opens, ends in one of two ways. It returns, the device has
-- accepted all its requests, with `UI_DEV_CREATE` as the last, and every key up to `KEY_MAX` was enabled
-- before; or it throws for the first request that is refused, with its label, behind those that were accepted.
pub open_virtual-FirstRefused :
    (ioctl : Request → Bool)
    → FirstRefused ioctl set_up [] (open_virtual ioctl true)
      × ((key : ℕ) → key ≤ key_max → In (set_keybit key) set_up)
open_virtual-FirstRefused ioctl = (
  subst (FirstRefused ioctl set_up []) (sym (open_virtual-request_all ioctl))
      (request_all-FirstRefused ioctl set_up []),
  set_up-In,
)

-- A device that accepts every request is set up.
pub open_virtual-made :
    (ioctl : Request → Bool)
    → ((request : Request) → ioctl request ≡ true)
    → open_virtual ioctl true ≡ made set_up
open_virtual-made ioctl all = whole (open_virtual-FirstRefused ioctl).0
  where
    whole :
        FirstRefused ioctl set_up [] (open_virtual ioctl true)
        → open_virtual ioctl true ≡ made set_up
    whole (inl (e, _)) = e
    whole (inr (before, request, after, _, _, off, _)) = absurd (ground (arith, off, all request))
