-- ===== src/Manager/Queue.antt =====
-- The calls that wait for the thread of an instance, and what they make of the listeners.
use ovpn2ss.Common.{◌≡◌, refl, Bool, true, false, List, [], ◌∷◌, ◌++◌, All, All-append_one}
use ovpn2ss.OpenVpn.Tunnel.{Notice, ready, down}
use ovpn2ss.Manager.Instance.{Job, start_job, ready_job, down_job, stop_job, job_of}

abbrev pub is_start : Job → Bool
is_start start_job = true
is_start _ = false

abbrev pub AreLater : List Job → Type 0
AreLater = All (λ j. is_start j ≡ false)

-- Only the first call may be that of start_instance.
abbrev pub IsOnlyFirst : List Job → Type 0
IsOnlyFirst [] = Unit
IsOnlyFirst (j ∷ js) = AreLater js

abbrev pub has_stop : List Job → Bool
has_stop [] = false
has_stop (stop_job ∷ js) = true
has_stop (start_job ∷ js) = has_stop js
has_stop (ready_job ∷ js) = has_stop js
has_stop (down_job ∷ js) = has_stop js

-- Whether the listeners are started once these calls have run.
abbrev pub followed : Bool → List Job → Bool
followed started [] = started
followed started (ready_job ∷ js) = followed true js
followed started (down_job ∷ js) = followed false js
followed started (stop_job ∷ js) = followed false js
followed started (start_job ∷ js) = followed started js

-- Whether the last of the notices is that the tunnel is ready.
abbrev pub is_ready : Notice → Bool
is_ready ready = true
is_ready down = false

abbrev pub last_ready : Bool → List Notice → Bool
last_ready b [] = b
last_ready b (x ∷ xs) = last_ready (is_ready x) xs

pub last_ready-append_one :
    (b : Bool) (xs : List Notice) (x : Notice) → last_ready b (xs ++ x ∷ []) ≡ is_ready x
last_ready-append_one b [] x = refl
last_ready-append_one b (y ∷ ys) x = last_ready-append_one (is_ready y) ys x

pub followed-append_one :
    (b : Bool) (js : List Job) (x : Notice) → followed b (js ++ job_of x ∷ []) ≡ is_ready x
followed-append_one b [] ready = refl
followed-append_one b [] down = refl
followed-append_one b (start_job ∷ js) x = followed-append_one b js x
followed-append_one b (ready_job ∷ js) x = followed-append_one true js x
followed-append_one b (down_job ∷ js) x = followed-append_one false js x
followed-append_one b (stop_job ∷ js) x = followed-append_one false js x

pub has_stop-append_one :
    (js : List Job) (x : Notice) → has_stop (js ++ job_of x ∷ []) ≡ has_stop js
has_stop-append_one [] ready = refl
has_stop-append_one [] down = refl
has_stop-append_one (start_job ∷ js) x = has_stop-append_one js x
has_stop-append_one (ready_job ∷ js) x = has_stop-append_one js x
has_stop-append_one (down_job ∷ js) x = has_stop-append_one js x
has_stop-append_one (stop_job ∷ js) x = refl

pub has_stop-stop : (js : List Job) → has_stop (js ++ stop_job ∷ []) ≡ true
has_stop-stop [] = refl
has_stop-stop (start_job ∷ js) = has_stop-stop js
has_stop-stop (ready_job ∷ js) = has_stop-stop js
has_stop-stop (down_job ∷ js) = has_stop-stop js
has_stop-stop (stop_job ∷ js) = refl

pub later-append_one :
    (js : List Job) (j : Job) → is_start j ≡ false → AreLater js → AreLater (js ++ j ∷ [])
later-append_one js j h a = All-append_one _ js j a h

pub first-append_one :
    (js : List Job) (j : Job) → is_start j ≡ false → IsOnlyFirst js → IsOnlyFirst (js ++ j ∷ [])
first-append_one [] j h a = tt
first-append_one (k ∷ js) j h a = later-append_one js j h a

pub job_of-is_start : (x : Notice) → is_start (job_of x) ≡ false
job_of-is_start ready = refl
job_of-is_start down = refl

pub later_first : (js : List Job) → AreLater js → IsOnlyFirst js
later_first [] a = tt
later_first (j ∷ js) (h, a) = a

pub has_stop_handler : (x : Notice) (js : List Job) → has_stop (job_of x ∷ js) ≡ has_stop js
has_stop_handler ready js = refl
has_stop_handler down js = refl

pub followed_handler :
    (b : Bool) (x : Notice) (js : List Job) → followed b (job_of x ∷ js) ≡ followed (is_ready x) js
followed_handler b ready js = refl
followed_handler b down js = refl
