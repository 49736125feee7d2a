-- ===== src/Sources/ZakupDocuments.antt =====
-- `_documents` and `_organization` of infrastructure/sources/zakup_sk/parser.py.
pub mod Distinct
use Prim.Native.String
use govpars.Prelude.{
  String, Bool, not, ◌&&◌, ◌||◌, Option, none, some, List, [], ◌∷◌, str_eq, if◌then◌else◌, any,
}
use govpars.Domain.Errors.{Result, ok, raised, ◌>>=◌}
use govpars.Domain.Models.{
  zakup_sk, organization, EntityIdentity, Organization, DocumentMetadata, Payload,
}
use govpars.Sources.Json.{
  Json, null, text, array, object, Fields, Python, truthy, get, pick, walk_fields, join, payload_of,
}
use govpars.Sources.ZakupParser.{◌+++◌, base_url}
use govpars.Sources.ZakupFields.{text_field, str_of_truthy, datetime_of, non_empty}

abbrev pub file_name : Fields → Json
file_name fs = pick fs ("fileName" ∷ "filename" ∷ "name" ∷ [])

abbrev pub file_uid : Fields → Json
file_uid fs = pick fs ("uid" ∷ "fileUid" ∷ "documentId" ∷ "id" ∷ [])

abbrev pub file_hash : Fields → Json
file_hash fs = pick fs ("hash" ∷ "fileHash" ∷ "md5" ∷ "sha256" ∷ [])

-- A dictionary that describes a file: it has a name, and a size, a type or a hash.
unfoldable pub is_document : Fields → Bool
is_document fs =
    truthy (file_name fs)
    && (truthy (pick fs ("fileSize" ∷ "size" ∷ "contentType" ∷ "mimeType" ∷ []))
        || truthy (file_hash fs))

-- `str(uid or file_hash or filename)`
unfoldable pub document_key : Python → Fields → String
document_key py fs = py.str_of (
    if truthy (file_uid fs)
    then file_uid fs
    else if truthy (file_hash fs)
    then file_hash fs
    else file_name fs)

unfoldable pub document_url : Python → Fields → Result (Option String)
unfolding text_field
document_url py fs =
    if truthy (file_uid fs)
    then ok (
        some
          (base_url +++ "/eprocfilestorage/open-api/files/download/" +++ py.str_of (file_uid fs)))
    else text_field (pick fs ("url" ∷ "downloadUrl" ∷ []))

unfoldable pub document_of : Python → Fields → Result DocumentMetadata
unfolding document_url str_of_truthy datetime_of text_field
document_of py fs = do
  category ← text_field (pick fs ("category" ∷ "documentCategory" ∷ "type" ∷ []))
  url ← document_url py fs
  declared ← text_field (pick fs ("contentType" ∷ "mimeType" ∷ []))
  ok (record {
    source_document_id = str_of_truthy py (file_uid fs);
    category = category;
    filename = some (py.str_of (file_name fs));
    url = url;
    size_bytes = elim (str_of_truthy py (pick fs ("fileSize" ∷ "size" ∷ []))) [
      | none ↦ none
      | some s ↦ py.int_of_digits s
    ];
    uploaded_at = datetime_of py (pick fs ("uploadDate" ∷ "createdDate" ∷ "createdAt" ∷ []));
    document_hash = str_of_truthy py (file_hash fs);
    declared_content_type = declared;
    inferred_content_type = py.guess_type (py.str_of (file_name fs));
    response_content_type = none;
    source_payload = payload_of py.dumps fs;
  })

-- The dictionaries that become documents: the first of each key that was not seen.
unfoldable pub chosen_documents : Python → List String → List Fields → List Fields
unfolding is_document document_key
chosen_documents py seen [] = []
chosen_documents py seen (fs ∷ rest) =
    let chosen = is_document fs && not (any (λ k. str_eq k (document_key py fs)) seen) in
    let others = chosen_documents py (if chosen then document_key py fs ∷ seen else seen) rest in
    if chosen then fs ∷ others else others

unfoldable pub documents_of : Python → List Fields → Result (List DocumentMetadata)
unfolding document_of
documents_of py [] = ok []
documents_of py (fs ∷ rest) = do
  document ← document_of py fs
  others ← documents_of py rest
  ok (document ∷ others)

-- `_documents`
unfoldable pub documents : Python → Fields → Result (List DocumentMetadata)
unfolding chosen_documents documents_of
documents py fs = documents_of py (chosen_documents py [] (fs ∷ walk_fields fs))

-- The part of an address, where it is neither falsy nor blank.
abbrev address_part : Python → Json → Option String
address_part py v = if truthy v then non_empty (py.strip (py.str_of v)) else none

unfoldable pub address_parts : Python → List Json → List String
address_parts py [] = []
address_parts py (v ∷ rest) =
    let others = address_parts py rest in
    elim (address_part py v) [ none ↦ others | some s ↦ s ∷ others ]

unfoldable pub legal_address : Python → Json → Json
unfolding address_parts
legal_address py (object fs) =
    let full = pick fs ("fullAddressRu" ∷ []) in
    if truthy full
    then full
    else elim (non_empty (
        join ", " (
          address_parts py (
            get fs "countryRu"
            ∷ get fs "katoNameRu"
            ∷ get fs "street"
            ∷ get fs "building"
            ∷ get fs "flat"
            ∷ [])))) [ none ↦ null | some s ↦ text s ]
legal_address py _ = null

-- `address` as it is passed on
unfoldable pub organization_address : Python → Fields → Json
unfolding legal_address
organization_address py fs =
    let address = pick fs ("address" ∷ "addressRu" ∷ []) in
    elim (get fs "legalAddress") [
      | object legal ↦ if truthy address then address else legal_address py (object legal)
      | v ↦ address
    ]

unfoldable pub organization_identity : Python → Fields → Json → EntityIdentity
organization_identity py fs id =
    let number = pick fs ("bin" ∷ "identifier" ∷ []) in
    record {
      source = zakup_sk;
      entity_type = organization;
      source_entity_id = py.str_of id;
      business_number = some (py.str_of (if truthy number then number else id));
      canonical_url = base_url +++ "/#/ext?organization=" +++ py.str_of id;
    }

-- An organization with its identity and payload.
pub record FoundOrganization : Type 0 where
  pub identity : EntityIdentity
  pub fields : Organization
  pub source_payload : Payload

unfoldable pub organization_values : Python → Fields → Result Organization
unfolding organization_address text_field
organization_values py fs = do
  name_ru ← text_field (pick fs ("nameRu" ∷ "name" ∷ "fullNameRu" ∷ []))
  name_kk ← text_field (pick fs ("nameKk" ∷ "fullNameKk" ∷ []))
  bin ← text_field (pick fs ("bin" ∷ "identifier" ∷ []))
  address ← text_field (organization_address py fs)
  phone ← text_field (pick fs ("phone" ∷ []))
  email ← text_field (pick fs ("email" ∷ []))
  ok (record {
    name_ru = name_ru;
    name_kk = name_kk;
    bin = bin;
    address = address;
    phone = phone;
    email = email;
  })

unfoldable pub organization_in : Python → Fields → Json → Result (Option FoundOrganization)
unfolding organization_values organization_identity
organization_in py fs null = ok none
organization_in py fs id = organization_values py fs >>= λ values. ok (
    some (record {
      identity = organization_identity py fs id;
      fields = values;
      source_payload = payload_of py.dumps fs;
    }))

-- `_organization`
unfoldable pub organization_of : Python → Json → Result (Option FoundOrganization)
unfolding organization_in
organization_of py (object fs) =
    organization_in py fs (pick fs ("id" ∷ "companyId" ∷ "bin" ∷ "identifier" ∷ []))
organization_of py _ = ok none
