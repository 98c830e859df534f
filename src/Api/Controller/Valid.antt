-- ===== src/Api/Controller/Valid.antt =====
-- What a request must be to reach the scheduler.
use my_tiny_network_library.Base.{
  ◌≡◌, ◌≢◌, ◌⊎◌, inl, inr, refl, ap, subst, arith, Bool, true, false, not, ◌||◌, List, [], ◌∷◌,
  Option, none, some, if◌then◌else◌, Bytes, codes, equal, equal_iff, is_empty, is_empty_iff, length,
  ◌==◌, Bool-cases,
}
use my_tiny_network_library.Http.Chars.{c_string}
use my_tiny_network_library.Http.Request.{
  Request, Method, invalid, get, post, head, put, delete, UploadedFile, get_body_form,
}
use my_tiny_network_library.Inference.Types.{BackendType, InferenceRequest, parse_backend_type}
use my_tiny_network_library.Api.Controller.{
  Floated, built, rejected, only_file, is_image_type, or_default, parse_threshold, with_threshold,
  with_backend, with_file, build_request,
}

module _ {Real : Type 0} (strtof : Bytes → Floated Real) (is_negative above_one : Real → Bool) where
  -- The threshold of a request: the one before, or the number that the whole text of the form field
  -- stands for, which is not below 0 and not above 1.
  pub data IsThreshold (text : Bytes) (before value : Real) : Type 0 where
    kept : text ≡ [] → value ≡ before → IsThreshold text before value
    given :
        (strtof (c_string text)).value ≡ value
        → (strtof (c_string text)).range_error ≡ false
        → (strtof (c_string text)).rest ≡ []
        → is_negative value ≡ false
        → above_one value ≡ false
        → IsThreshold text before value

  -- What the request and the task that it becomes have to do with each other.
  pub record IsValid (http : Request) (before after : InferenceRequest Real) : Type 0 where
    pub is_post : http.method ≡ post
    pub file : UploadedFile
    pub only : http.files ≡ file ∷ []
    pub named : file.field_name ≡ codes "image"
    pub content : file.content ≢ []
    pub kind : (file.content_type ≡ codes "image/jpeg") ⊎ (file.content_type ≡ codes "image/png")
    pub encoded : after.image.encoded ≡ some file.content
    pub model : after.model_name ≡ or_default (get_body_form (codes "model") http)
    pub backend : parse_backend_type (get_body_form (codes "backend") http) ≡ some after.backend
    pub threshold :
        IsThreshold
          (get_body_form (codes "threshold") http)
          before.confidence_threshold
          after.confidence_threshold
    pub same_id : after.request_id ≡ before.request_id

  parse_threshold-IsThreshold :
      (text : Bytes) (before value : Real)
      → parse_threshold strtof is_negative above_one text before ≡ some value
      → IsThreshold text before value
  unfolding parse_threshold
  parse_threshold-IsThreshold text before value h = go _ _ refl refl h
    where
      parsed : Floated Real
      parsed = strtof (c_string text)

      wrong : Bool
      wrong =
          parsed.range_error
          || length parsed.rest == length (c_string text)
          || not (is_empty parsed.rest)
          || is_negative parsed.value
          || above_one parsed.value

      go :
          (missing bad : Bool)
          → is_empty text ≡ missing
          → wrong ≡ bad
          → (if missing then some before else if bad then none else some parsed.value) ≡ some value
          → IsThreshold text before value
      go true bad e k o = kept ((is_empty_iff text).0 e) (cc o)
      go false true e k o = absurd (cc o)
      go false false e k o =
          let same : parsed.value ≡ value = cc o in
          given same (ground (arith, k)) ((is_empty_iff parsed.rest).0 (ground (arith, k)))
            (subst (λ v. is_negative v ≡ false) same (ground (arith, k)))
            (subst (λ v. above_one v ≡ false) same (ground (arith, k)))

  -- what the tests of the file come to
  record IsImage (http : Request) (file : UploadedFile) : Type 0 where
    is_post : http.method ≡ post
    only : http.files ≡ file ∷ []
    named : file.field_name ≡ codes "image"
    content : file.content ≢ []
    kind : (file.content_type ≡ codes "image/jpeg") ⊎ (file.content_type ≡ codes "image/png")

  with_threshold-IsValid :
      (http : Request) (file : UploadedFile) (before after : InferenceRequest Real)
      (backend : BackendType) (o : Option Real)
      → IsImage http file
      → parse_backend_type (get_body_form (codes "backend") http) ≡ some backend
      → parse_threshold strtof is_negative above_one
          (get_body_form (codes "threshold") http)
          before.confidence_threshold
        ≡ o
      → with_threshold strtof is_negative above_one file
          (record before {
            model_name = or_default (get_body_form (codes "model") http);
            backend = backend;
          })
          o
        ≡ built after
      → IsValid http before after
  with_threshold-IsValid http file before after backend none image e k h = absurd (cc h)
  with_threshold-IsValid http file before after backend (some value) image e k h =
      let task : InferenceRequest Real = record before {
        model_name = or_default (get_body_form (codes "model") http);
        backend = backend;
        confidence_threshold = value;
        image = record {
          encoded = some file.content;
          file_name = file.file_name;
          content_type = file.content_type;
        };
      } in
      let same : task ≡ after = cc h in
      subst (IsValid http before) same (record {
        is_post = image.is_post;
        file = file;
        only = image.only;
        named = image.named;
        content = image.content;
        kind = image.kind;
        encoded = refl;
        model = refl;
        backend = e;
        threshold = parse_threshold-IsThreshold _ _ value k;
        same_id = refl;
      })

  with_backend-IsValid :
      (http : Request) (file : UploadedFile) (before after : InferenceRequest Real)
      (o : Option BackendType)
      → IsImage http file
      → parse_backend_type (get_body_form (codes "backend") http) ≡ o
      → with_backend strtof is_negative above_one http file
          (record before { model_name = or_default (get_body_form (codes "model") http) })
          o
        ≡ built after
      → IsValid http before after
  with_backend-IsValid http file before after none image e h = absurd (cc h)
  with_backend-IsValid http file before after (some backend) image e h =
      with_threshold-IsValid http file before after backend _ image e refl h

  is_image_type-kind :
      (content_type : Bytes)
      → is_image_type content_type ≡ true
      → (content_type ≡ codes "image/jpeg") ⊎ (content_type ≡ codes "image/png")
  is_image_type-kind content_type h = elim (Bool-cases (equal content_type (codes "image/jpeg"))) [
    | inl e ↦ inl ((equal_iff _ _).0 e)
    | inr e ↦ inr ((equal_iff _ _).0 (ground (arith, h, e)))
  ]

  only_file-only :
      (files : List UploadedFile) (file : UploadedFile)
      → only_file files ≡ some file
      → files ≡ file ∷ []
  only_file-only [] file h = absurd (cc h)
  only_file-only (f ∷ []) file h = ap (λ x. x ∷ []) (cc h)
  only_file-only (f ∷ g ∷ files) file h = absurd (cc h)

  with_file-IsValid :
      (http : Request) (before after : InferenceRequest Real) (o : Option UploadedFile)
      → http.method ≡ post
      → only_file http.files ≡ o
      → with_file strtof is_negative above_one http before o ≡ built after
      → IsValid http before after
  with_file-IsValid http before after none m e h = absurd (cc h)
  with_file-IsValid http before after (some file) m e h = go _ _ refl refl h
    where
      go :
          (bad_file bad_type : Bool)
          → (not (equal file.field_name (codes "image")) || is_empty file.content) ≡ bad_file
          → (not (is_image_type file.content_type)) ≡ bad_type
          → (if bad_file
              then rejected
                  (codes "INVALID_IMAGE")
                  (codes "a non-empty multipart file field named image is required")
              else if bad_type
              then rejected
                  (codes "UNSUPPORTED_IMAGE_TYPE")
                  (codes "only image/jpeg and image/png are supported")
              else with_backend strtof is_negative above_one http file
                  (record before { model_name = or_default (get_body_form (codes "model") http) })
                  (parse_backend_type (get_body_form (codes "backend") http)))
            ≡ built after
          → IsValid http before after
      go true bad_type k l b = absurd (cc b)
      go false true k l b = absurd (cc b)
      go false false k l b =
          let filled : is_empty file.content ≡ false = ground (arith, k) in
          with_backend-IsValid http file before after _
            (record {
              is_post = m;
              only = only_file-only http.files file e;
              named = (equal_iff _ _).0 (ground (arith, k));
              content = λ c. cc (filled, (is_empty_iff file.content).1 c);
              kind = is_image_type-kind file.content_type (ground (arith, l));
            })
            refl b

  -- A request that `buildRequest` accepts is a POST with one file, named image, not empty and a JPEG
  -- or PNG by its type; the task holds its bytes, the model and the backend that the form names, or
  -- stands for where it names none, and a threshold that is the default or a value that is neither below
  -- 0 nor above 1.
  pub build_request-IsValid :
      (http : Request) (before after : InferenceRequest Real)
      → build_request strtof is_negative above_one http before ≡ built after
      → IsValid http before after
  unfolding build_request get_body_form
  build_request-IsValid http before after h = go http.method refl h
    where
      not_post :
          (if true
              then rejected (codes "METHOD_NOT_ALLOWED") (codes "POST method is required")
              else with_file strtof is_negative above_one http before (only_file http.files))
            ≡ built after
          → IsValid http before after
      not_post b = absurd (cc b)

      go :
          (m : Method)
          → http.method ≡ m
          → build_request strtof is_negative above_one (record http { method = m }) before
            ≡ built after
          → IsValid http before after
      go post e b = with_file-IsValid http before after _ e refl b
      go invalid e b = not_post b
      go get e b = not_post b
      go head e b = not_post b
      go put e b = not_post b
      go delete e b = not_post b
