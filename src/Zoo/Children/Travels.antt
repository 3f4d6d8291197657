-- ===== src/Zoo/Children/Travels.antt =====
-- How the children of nodes travel.
use coev.Zoo.Archive.Rules.{Travels, then-Travels, last-Travels}
use coev.Zoo.Archive.Values.{int32, flag, int-Travels}
use coev.Zoo.Archive.Values.{bool-Travels, IsText, IsVec, string-Travels}
use coev.Zoo.Children.{GetChildrenRequest, put_get_children_request}
use coev.Zoo.Children.{get_get_children_request, GetChildrenResponse}
use coev.Zoo.Children.{put_get_children_response, get_get_children_response}
use coev.Zoo.Children.{GetChildren2Request, put_get_children2_request}
use coev.Zoo.Children.{get_get_children2_request, GetChildren2Response}
use coev.Zoo.Children.{put_get_children2_response, get_get_children2_response}
use coev.Zoo.Children.{GetAllChildrenNumberRequest}
use coev.Zoo.Children.{put_get_all_children_number_request}
use coev.Zoo.Children.{get_get_all_children_number_request}
use coev.Zoo.Children.{GetAllChildrenNumberResponse}
use coev.Zoo.Children.{put_get_all_children_number_response}
use coev.Zoo.Children.{get_get_all_children_number_response, GetMaxChildrenRequest}
use coev.Zoo.Children.{put_get_max_children_request, get_get_max_children_request}
use coev.Zoo.Children.{GetMaxChildrenResponse, put_get_max_children_response}
use coev.Zoo.Children.{get_get_max_children_response, SetMaxChildrenRequest}
use coev.Zoo.Children.{put_set_max_children_request, get_set_max_children_request}
use coev.Zoo.Children.{GetEphemeralsRequest, put_get_ephemerals_request}
use coev.Zoo.Children.{get_get_ephemerals_request, GetEphemeralsResponse}
use coev.Zoo.Children.{put_get_ephemerals_response, get_get_ephemerals_response}
use coev.Zoo.Basic.Travels.{read_stat, stat-Travels}
use coev.Zoo.Basic.Travels.{string_vec-Travels}

abbrev pub FitGetChildrenRequest : GetChildrenRequest → Type 0
FitGetChildrenRequest v = IsText v.path

abbrev pub read_get_children_request : GetChildrenRequest → GetChildrenRequest
read_get_children_request v = record { path = v.path; watch = flag v.watch }

pub get_children_request-Travels :
    (v : GetChildrenRequest)
    → FitGetChildrenRequest v
    → Travels (put_get_children_request v) get_get_children_request (read_get_children_request v)
unfolding put_get_children_request get_get_children_request
get_children_request-Travels v h =
    then-Travels _ (string-Travels v.path h) (last-Travels _ (bool-Travels v.watch))

abbrev pub FitGetChildrenResponse : GetChildrenResponse → Type 0
FitGetChildrenResponse v = IsVec IsText v.children

pub get_children_response-Travels :
    (v : GetChildrenResponse)
    → FitGetChildrenResponse v
    → Travels (put_get_children_response v) get_get_children_response v
unfolding put_get_children_response get_get_children_response
get_children_response-Travels v h = last-Travels _ (string_vec-Travels v.children h)

abbrev pub FitGetChildren2Request : GetChildren2Request → Type 0
FitGetChildren2Request v = IsText v.path

abbrev pub read_get_children2_request : GetChildren2Request → GetChildren2Request
read_get_children2_request v = record { path = v.path; watch = flag v.watch }

pub get_children2_request-Travels :
    (v : GetChildren2Request)
    → FitGetChildren2Request v
    → Travels (put_get_children2_request v) get_get_children2_request (read_get_children2_request v)
unfolding put_get_children2_request get_get_children2_request
get_children2_request-Travels v h =
    then-Travels _ (string-Travels v.path h) (last-Travels _ (bool-Travels v.watch))

abbrev pub FitGetChildren2Response : GetChildren2Response → Type 0
FitGetChildren2Response v = IsVec IsText v.children

abbrev pub read_get_children2_response : GetChildren2Response → GetChildren2Response
read_get_children2_response v = record { children = v.children; stat = read_stat v.stat }

pub get_children2_response-Travels :
    (v : GetChildren2Response)
    → FitGetChildren2Response v
    → Travels
        (put_get_children2_response v)
        get_get_children2_response
        (read_get_children2_response v)
unfolding put_get_children2_response get_get_children2_response
get_children2_response-Travels v h =
    then-Travels _ (string_vec-Travels v.children h) (last-Travels _ (stat-Travels v.stat))

abbrev pub FitGetAllChildrenNumberRequest : GetAllChildrenNumberRequest → Type 0
FitGetAllChildrenNumberRequest v = IsText v.path

pub get_all_children_number_request-Travels :
    (v : GetAllChildrenNumberRequest)
    → FitGetAllChildrenNumberRequest v
    → Travels (put_get_all_children_number_request v) get_get_all_children_number_request v
unfolding put_get_all_children_number_request get_get_all_children_number_request
get_all_children_number_request-Travels v h = last-Travels _ (string-Travels v.path h)

abbrev pub read_get_all_children_number_response :
    GetAllChildrenNumberResponse → GetAllChildrenNumberResponse
read_get_all_children_number_response v = record { total_number = int32 v.total_number }

pub get_all_children_number_response-Travels :
    (v : GetAllChildrenNumberResponse)
    → Travels
        (put_get_all_children_number_response v)
        get_get_all_children_number_response
        (read_get_all_children_number_response v)
unfolding put_get_all_children_number_response get_get_all_children_number_response
get_all_children_number_response-Travels v = last-Travels _ (int-Travels v.total_number)

abbrev pub FitGetMaxChildrenRequest : GetMaxChildrenRequest → Type 0
FitGetMaxChildrenRequest v = IsText v.path

pub get_max_children_request-Travels :
    (v : GetMaxChildrenRequest)
    → FitGetMaxChildrenRequest v
    → Travels (put_get_max_children_request v) get_get_max_children_request v
unfolding put_get_max_children_request get_get_max_children_request
get_max_children_request-Travels v h = last-Travels _ (string-Travels v.path h)

abbrev pub read_get_max_children_response : GetMaxChildrenResponse → GetMaxChildrenResponse
read_get_max_children_response v = record { max = int32 v.max }

pub get_max_children_response-Travels :
    (v : GetMaxChildrenResponse)
    → Travels
        (put_get_max_children_response v)
        get_get_max_children_response
        (read_get_max_children_response v)
unfolding put_get_max_children_response get_get_max_children_response
get_max_children_response-Travels v = last-Travels _ (int-Travels v.max)

abbrev pub FitSetMaxChildrenRequest : SetMaxChildrenRequest → Type 0
FitSetMaxChildrenRequest v = IsText v.path

abbrev pub read_set_max_children_request : SetMaxChildrenRequest → SetMaxChildrenRequest
read_set_max_children_request v = record { path = v.path; max = int32 v.max }

pub set_max_children_request-Travels :
    (v : SetMaxChildrenRequest)
    → FitSetMaxChildrenRequest v
    → Travels
        (put_set_max_children_request v)
        get_set_max_children_request
        (read_set_max_children_request v)
unfolding put_set_max_children_request get_set_max_children_request
set_max_children_request-Travels v h =
    then-Travels _ (string-Travels v.path h) (last-Travels _ (int-Travels v.max))

abbrev pub FitGetEphemeralsRequest : GetEphemeralsRequest → Type 0
FitGetEphemeralsRequest v = IsText v.prefix_path

pub get_ephemerals_request-Travels :
    (v : GetEphemeralsRequest)
    → FitGetEphemeralsRequest v
    → Travels (put_get_ephemerals_request v) get_get_ephemerals_request v
unfolding put_get_ephemerals_request get_get_ephemerals_request
get_ephemerals_request-Travels v h = last-Travels _ (string-Travels v.prefix_path h)

abbrev pub FitGetEphemeralsResponse : GetEphemeralsResponse → Type 0
FitGetEphemeralsResponse v = IsVec IsText v.ephemerals

pub get_ephemerals_response-Travels :
    (v : GetEphemeralsResponse)
    → FitGetEphemeralsResponse v
    → Travels (put_get_ephemerals_response v) get_get_ephemerals_response v
unfolding put_get_ephemerals_response get_get_ephemerals_response
get_ephemerals_response-Travels v h = last-Travels _ (string_vec-Travels v.ephemerals h)
