-- ===== src/Scenarios/Json.antt =====
-- An encoding of lists of texts: every byte is one more than it was, and a zero ends a text.
use kruise_agents_nfs_csi.Prelude.{
  zero, suc, ◌≡◌, ◌≤◌, length, refl, ap, ◌∙◌, Bool, true, false, List, [], ◌∷◌, arith, map, All,
}
use kruise_agents_nfs_csi.Go.Text.{Str}
use kruise_agents_nfs_csi.Go.Split.{split, join, Free, split-join}
use kruise_agents_nfs_csi.Go.Errors.{Result, ok, err, text}
use kruise_agents_nfs_csi.Api.{MountRequest, MountResult}
use kruise_agents_nfs_csi.Client.{max_response_size}
use kruise_agents_nfs_csi.Client.Served.{Json, IsSent, IsReadable}
use kruise_agents_nfs_csi.Wrapper.Server.Http.{request_limit}

abbrev raised : Str → Str
raised [] = []
raised (c ∷ s) = suc c ∷ raised s

abbrev lowered : Str → Str
lowered [] = []
lowered (zero ∷ s) = 0 ∷ lowered s
lowered (suc c ∷ s) = c ∷ lowered s

lowered-raised : (s : Str) → lowered (raised s) ≡ s
lowered-raised [] = refl
lowered-raised (c ∷ s) = ap (λ t. c ∷ t) (lowered-raised s)

raised-Free : (s : Str) → Free 0 (raised s)
raised-Free [] = tt
raised-Free (c ∷ s) = (λ e. omega (arith, e), raised-Free s)

abbrev pack : List Str → Str
pack parts = join (map raised parts) 0

abbrev unpack : Str → List Str
unpack s = map lowered (split s 0)

raised-All : (parts : List Str) → All (Free 0) (map raised parts)
raised-All [] = tt
raised-All (part ∷ parts) = (raised-Free part, raised-All parts)

lowered-map : (parts : List Str) → map lowered (map raised parts) ≡ parts
lowered-map [] = refl
lowered-map (part ∷ parts) =
    ap (λ p. p ∷ map lowered (map raised parts)) (lowered-raised part)
    ∙ ap (λ ps. part ∷ ps) (lowered-map parts)

unpack-pack : (part : Str) (parts : List Str) → unpack (pack (part ∷ parts)) ≡ part ∷ parts
unpack-pack part parts =
    ap (map lowered) (split-join (raised part) (map raised parts) 0 (raised-All (part ∷ parts)))
    ∙ lowered-map (part ∷ parts)

abbrev request_of : List Str → Result MountRequest
request_of (a ∷ b ∷ c ∷ d ∷ e ∷ f ∷ g ∷ h ∷ i ∷ []) = ok (record {
  api_version = a;
  driver_name = b;
  namespace = c;
  pod_name = d;
  pod_uid = e;
  pv_name = f;
  source_sub_path = g;
  target_path = h;
  container_name = i;
})
request_of _ = err (text "invalid request")

abbrev pub request_body : MountRequest → Str
request_body r = pack (
    r.api_version ∷ r.driver_name ∷ r.namespace ∷ r.pod_name ∷ r.pod_uid ∷ r.pv_name
    ∷ r.source_sub_path ∷ r.target_path ∷ r.container_name ∷ [])

abbrev flag_text : Bool → Str
flag_text true = 1 ∷ []
flag_text false = []

abbrev flag_of : Str → Bool
flag_of [] = false
flag_of (c ∷ s) = true

flag_of-flag_text : (b : Bool) → flag_of (flag_text b) ≡ b
flag_of-flag_text true = refl
flag_of-flag_text false = refl

abbrev result_of : List Str → Result MountResult
result_of (a ∷ b ∷ c ∷ d ∷ e ∷ f ∷ []) = ok (record {
  mounted = flag_of a;
  driver_name = b;
  pv_name = c;
  source_sub_path = d;
  target_path = e;
  container_name = f;
})
result_of _ = err (text "invalid result")

abbrev pub result_body : MountResult → Str
result_body a =
    0
    ∷ pack (
        flag_text a.mounted
        ∷ a.driver_name
        ∷ a.pv_name
        ∷ a.source_sub_path
        ∷ a.target_path
        ∷ a.container_name
        ∷ [])

abbrev read_result : Str → Result MountResult
read_result [] = err (text "invalid result")
read_result (c ∷ s) = result_of (unpack s)

abbrev reply_body : Result MountResult → Str
reply_body (ok a) = result_body a
reply_body (err e) = []

-- Only mounts are exchanged.
abbrev pub json : Json
json = record {
  server = record {
    decode_mount = λ l. request_of (unpack l.bytes);
    decode_unmount = λ l. err (text "invalid request");
    encode_health = λ response. [];
    encode_mount = λ response. reply_body response.body;
    encode_unmount = λ response. [];
  };
  encode_request = λ r. ok (request_body r);
  decode_envelope = λ s. ok (record { content = s; error = [] });
  decode_result = read_result;
}

with_flag : (a : MountResult) (b : Bool) → b ≡ a.mounted → record a { mounted = b } ≡ a
with_flag a b e = ap (λ x. record a { mounted = x }) e

pub json-IsSent : (r : MountRequest) → length (request_body r) ≤ request_limit → IsSent json r
json-IsSent r h = record {
  body = request_body r;
  encoded = refl;
  short = h;
  decoded = ap request_of (
      unpack-pack r.api_version (
        r.driver_name ∷ r.namespace ∷ r.pod_name ∷ r.pod_uid ∷ r.pv_name ∷ r.source_sub_path
        ∷ r.target_path ∷ r.container_name ∷ []));
}

pub json-IsReadable :
    (a : MountResult) → length (result_body a) ≤ max_response_size → IsReadable json a
json-IsReadable a h = record {
  short = h;
  envelope = record { content = result_body a; error = [] };
  opened = refl;
  filled = λ e. ground (arith, e);
  read =
      ap result_of (
        unpack-pack (flag_text a.mounted)
          (a.driver_name ∷ a.pv_name ∷ a.source_sub_path ∷ a.target_path ∷ a.container_name ∷ []))
      ∙ ap ok (with_flag a (flag_of (flag_text a.mounted)) (flag_of-flag_text a.mounted));
}
